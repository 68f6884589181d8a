-- ===== src/Lib.antt =====
-- Verification library of fsmc, a compiler of state machine models, and of the C++ runtime that the
-- machines it generates link against.
--
-- THE PROGRAM. Front ends (src/frontend) read a model in one of several notations into an intermediate
-- form (include/fsm/ir). The middle end (src/middleend) runs passes and analyses on it. Back ends
-- (src/backend) print it as C++ or in other notations. The printed C++ is a transition table with hooks;
-- its behaviour is that of the header library include/fsm/backend/cpp/runtime. This library models some
-- passes and analyses of the middle end with the intermediate form that they work on, the parser of
-- guards and the identifiers of the front ends, and the core of the runtime.
--
-- THE RUNTIME, in Runtime/, paths below include/fsm/backend/cpp/runtime:
-- * StaticVector is static_vector.hpp: an array of slots with a size. HistoryManager
--   (detail/history_manager.hpp) and DeferredManager (detail/deferred_manager.hpp) keep one each.
--   Slots holds what an array keeps under writes, Contents the vector as a list.
-- * StaticRingBuffer is static_ring_buffer.hpp, and FlightRecorder is flight_recorder.hpp. Ring holds the
--   arithmetic of slots that wrap around, for both; a trace buffer is read as a ring buffer.
-- * SpscRingBuffer is spsc_ring_buffer.hpp: a producer and a consumer thread that move in the order of a
--   schedule. Counting relates its indices to counts that do not wrap around.
-- * DeterministicTimer is deterministic_timer.hpp: start_timer, cancel_timer, tick and the rest.
-- * AsyncEventQueue is async_event_queue.hpp: tasks in their order and tasks with a deadline, taken by
--   try_pop, pop_wait or drain_ready_batch.
-- * StateType is what traits/reflection.hpp and traits/observer_traits.hpp read of a state type, with
--   is_substate_of. A state type is a finite chain of parents, as a C++ type is.
-- * TransitionExecutor is detail/transition_executor.hpp: execute_transition_from_ports and the
--   functions call_hierarchical_on_exit and call_hierarchical_on_enter under it. Selection is about the
--   row that an event takes, Steps and Lifecycle about the order of the hooks, Lifecycle.Balance about which
--   states are entered and exited.
-- * Fsm is fsm.hpp: dispatch runs the executor, and then defers the event or replays deferred ones;
--   step does so for the anonymous event. The hooks of its machine leave the deferred events alone; a manager
--   whose callback does not is in DeferredManager, with Quiescence and Divergence about the two cases.
-- What a template takes as a parameter is a parameter here: the capacity, the value-initialised
-- element, the machine class and the user's hooks (TransitionExecutor.Instance, Fsm.Machine), and the
-- callbacks of tick and of the replay. A guard reads the machine and changes nothing, where the source
-- could pass it services that it changes. Asserts that fail are `none` or `aborted`.
--
-- THE MIDDLE END, in Ir/ and Middleend/:
-- * Ir.Guard is include/fsm/ir/guard.hpp (GuardAstNode, its equality, and its meaning as src/ir/guard.cpp
--   prints it), and Ir.Model is include/fsm/ir/fsm_ir.hpp with state_node.hpp and transition_edge.hpp: the
--   fields and lookups that the passes read. Ir.Trigger is include/fsm/ir/trigger.hpp. Ir.Guard.Printing is
--   the rest of src/ir/guard.cpp: the texts of a guard, and its atomic predicates.
-- * Ir.GraphOps is src/ir/fsm_graph_ops.cpp: normalize_hierarchy (Hierarchy), rebuild_adjacency_indices
--   (Adjacency) and sort_transitions_by_priority (Order), and what makes a machine well formed
--   (WellFormed).
-- * GuardSimplification is src/middleend/passes/guard_simplification_pass.cpp: simplify_node, and run in
--   Pass, whose texts the guard parser reads back.
-- * DeadStatePruning is src/middleend/passes/dead_state_pruning_pass.cpp: run. Its search is the loop of
--   Worklist, on any successor function. Correct is about the names that the search finds, Runs about the runs
--   of a machine, as sequences of configurations.
-- * EventQueueBound is src/middleend/analysis/event_queue_bound_pass.cpp: run. Capacity is about the
--   rounding to a power of two, Bounds about the whole pass.
-- * DeterminismEnforcement is src/middleend/passes/determinism_enforcement_pass.cpp: run. OrderedMap is about
--   its maps, Warnings about the conflicts that it reports, Canonical about the order of the table.
-- * PriorityConflict is src/middleend/analysis/priority_conflict_pass.cpp: run. Climbing is about the walk along
--   parent_id, Contradictions about the pairs of transitions for which the pass fails,
--   Races about the warnings.
-- * Livelock is src/middleend/analysis/livelock_analysis_pass.cpp: the depth-first search with three colours, and
--   the cycles that it reports.
--
-- THE FRONT ENDS, in Frontend/:
-- * Identifier is sanitize_identifier and trim of src/frontend/common/parser_interface.cpp and its header.
--   Valid is about the characters of the result.
-- * GuardParser is src/frontend/directive/guard_parser.cpp: tokenize, and the recursive descent parse_or,
--   parse_and, parse_unary, parse_primary. A state of the parser is the list of tokens that are left. The
--   round trip goes from a guard of Ir.Guard through to_cpp and back; Formulas and Meaning say what
--   the type that the parser writes stands for.
--
-- Common passes on library names and holds lists on native numbers, Boolean tests, sets of names,
-- and texts as the numbers of their characters, in the order of std::string.
--
-- LOOPS AND FUEL. The loops over arrays are structural, on the rounds left. Some loops take fuel. The
-- search of dead_state_pruning visits a name once, so the number of names that occur in the machine is
-- enough. The replay of deferred events takes an event off the queue in each round but the last, so the
-- size of the queue and one more is enough where the actions do not defer events themselves; where they do, no
-- amount need be. The rounding to a power of two
-- starts at 2, so 62 doublings pass every size up to 2 ^ 63. The depth-first search for livelocks colours
-- a state at each level, so the number of names and one more is enough. The tokenizer takes a character
-- in each round, so the length of the text and one more is enough. The parser goes through at most four levels
-- for a token, so four times the number of tokens and five is enough. The walk along parent_id needs as much
-- as the depth of the hierarchy, and has no bound where the links form a cycle.
--
-- NUMBERS. Sizes and indices are natural numbers that stay below a capacity. Where the source relies on
-- a width it is written out: elapsed times of timers are taken modulo 2 ^ 64, generations modulo 2 ^ 32, and
-- the indices of the lock-free buffer modulo 2 ^ 64.
--
-- NOT MODELLED: the thread-safe machines, memory orders weaker than the order of a schedule, serialization and the
-- snapshot recorder, reset and the arming of timers in fsm.hpp, printed output, the other passes and
-- analyses, the other front ends and the back ends, to_diagram_string and the rewriting of words by regular
-- expressions in guard_parser.cpp, canonicalize and sync_interfaces in fsm_graph_ops.cpp, and the data
-- members of a state, which belong to the machine. Of a report of a pass the model keeps the names and the
-- numbers that its message holds. The pruning pass removes states with a predicate that looks states up in the list that is
-- being compacted; the model looks them up in the list as it was.
pub mod Common
pub mod Runtime
pub mod Frontend
pub mod Ir
pub mod Middleend
