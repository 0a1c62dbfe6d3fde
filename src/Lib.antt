-- ===== src/Lib.antt =====
-- RulesForge: a forward-chaining rule engine. The rule network matches facts and puts activations
-- on the agenda; a session fires them by salience; the truth maintenance system is for derived facts
-- that lose their support; a continuous session feeds timed events to a session, and after a failure
-- replays its log of committed operations into a new one.
--
-- Paths are from the repository's root. One file stands for one part, its child modules for its
-- properties.
--   Prelude: the native numbers, tests, lists, association lists, sets and integers that all share.
--   Rule: the rule, token and activation structs of rulesforge/include/core.
--   Agenda: rulesforge/include/engine/agenda.hpp. Queue is the heap of salience and hash pairs, Pop
--     the search for activations, Blocks the focus, blocking and group cancellation. The unordered
--     map is an association list with one entry for each key; a heap is a list from the top down.
--   Continuous: rulesforge/src/engine/continuous_session.cpp and its header. Defs holds the data,
--     Steps the parts of a step, Execute the methods. The StatefulSession below is the record
--     SessionOps, a parameter: a call that may throw returns the session that it leaves, and none.
--     A method that may throw returns its result or error together with the state it leaves, so
--     that what an exception leaves behind is part of the model.
--   Session: the firing loop of rulesforge/src/engine/stateful_session.cpp over the modelled agenda;
--     the network and the right-hand sides behind it are the record FireOps. Sound carries the agenda's
--     invariant through the calls, Turns through the loop.
--   Rhs: the control flow of rulesforge/src/engine/rhs_executor.cpp. The actions on facts and the
--     evaluator are the record RhsOps. Flow says what any action may change, Loops how loops end,
--     Transaction what execute leaves.
--   Pool: rulesforge/include/engine/session_pool.hpp; a client's calls are a step relation.
--   Facts: insertion and retraction of facts and the right-hand side transaction of
--     stateful_session.cpp. The network, the agenda and truth maintenance behind them are the record
--     Network; the facts that they change in turn, such as results of accumulations, are its answer. A fact
--     has its id. Derived is about those changes, Within about the session while a transaction is
--     open, Undo about the loops of the rollback.
--   Memory: rulesforge/include/engine/working_memory.hpp without nested facts; the ids that insertion
--     writes into facts are part of its state.
--   Rete: the nodes of rulesforge/src/rete/rete_node.cpp, with their memories of
--     rulesforge/include/rete/network_memory.hpp. Alpha is AlphaNode, Condition NotNode and
--     ExistsNode, Index their hash indexes, Join the two join nodes, Terminal TerminalNode
--     (rete_node_terminal.inc), Window WindowNode. A node's activation returns its memory and the
--     messages to its children. The check of a constraint and the hash keys are arguments of each call,
--     read at that time, since facts are updated in place; Calls holds histories of calls.
--   Tms: rulesforge/src/engine/tms.cpp. A method's calls of retract_fact are its result.
--
-- Loops run over lists; a while of a right-hand side counts down from max_iterations, as the source
-- counts up to it; the firing loop, which need not end, is a sequence of turns. No fuel is used.
-- int64_t times are integers of any size where the source guards the sums against overflow;
-- the ages in a window and the ids of facts wrap as 64 bits do; counters and sizes do not wrap. What
-- the source locks is one sequence of calls.
-- Not modelled: the evaluation of constraints, the construction of the network, the accumulate, unnest,
-- eval and query nodes, the parsers, nested facts, queries, tracing and
-- the C interface.
pub mod Prelude
pub mod Rule
pub mod Agenda
pub mod Continuous
pub mod Session
pub mod Memory
pub mod Pool
pub mod Rhs
pub mod Rete
pub mod Facts
pub mod Tms
