-- ===== src/Lib.antt =====
-- Verification of julep's flow compiler core: the intermediate representation of flows, the cost
-- classes of flows, the gate that a flow passes before it is deployed, the admission of plans that a
-- model wrote, the interpreter of flows with the projection it records, and the policy parts of the
-- provider resilience layer.
--
-- A flow is built by the authoring surface as a tree of nodes (julep/ir.py). Before it may run, the
-- gate (julep/validate.py) collects diagnostics on it; a flow with a blocking diagnostic is not
-- deployed. The gate uses the classes of julep/shapes.py and the contracts of julep/contracts.py,
-- and the interpreter (julep/execution/interpreter.py) then evaluates the tree. A plan that a model
-- writes at run time passes julep/staged.py, which uses the same gate, before it is evaluated. The
-- circuit breaker of julep/resilience.py stands in the worker, around each call of a model.
--
-- The files:
--   Prelude     Boolean tests, lists, texts, integers and code that may raise.
--   Json        JSON values, as the arguments and the schemas of the IR hold them.
--   Kinds       julep/kinds.py: the enumerations, and the order and join of shapes (Kinds/Join).
--   Ir          julep/ir.py: tool references, annotations, steps, nodes, `children`, `walk` and
--               `tool_refs`. A Python `Node` is `node i left right body plan cases default`, where
--               `i : Info` holds the fields that hold no node; `None` is `absent` or `no_cases`.
--               Ir/Walk has what `walk` visits, and the induction over the children.
--   Shapes      julep/shapes.py: `surface_shape` and `closed_shape`. Shapes/Executed says which
--               nodes an evaluation reaches; Order, Bounded and Total relate the two.
--   Contracts   julep/contracts.py: contracts, MCP hints and the frozen manifest.
--   Transforms  julep/transforms.py: `normalize_ids` and `collect_duplicate_ids`.
--   Validate    julep/validate.py, one file for each group of rules: Fence (channels in concurrent
--               branches), Turns (how often a session body receives), Session (placement, fields,
--               channels, deployment target), Args (static arguments and retry fields), Structure
--               (what each operator needs), Calls (manifest, schemas and contexts) and Gate
--               (`validate` itself). Turns/Trace has the channel operations that an evaluation
--               performs, after `_eval` of julep/execution/interpreter.py.
--   Dsl         julep/dsl.py: the combinators that build a flow, with the counter of node ids.
--   Derived     julep/derived.py: the race family and the other derived combinators (Combinators), how
--               a race group is flattened, and the admission of what races. Tree has
--               the scan of races as one structural traversal, which Scan and Enough relate to the
--               scan; Within, Branch and Safe say what is admitted.
--   Capabilities  julep/capabilities.py: the grants of a flow and their enforcement (Compile), with
--               what passes in Granted. Approval has the check of human gates, Approval/Runs
--               the leaves that an evaluation performs, after `_eval` of julep/execution/interpreter.py.
--   Staged      julep/staged.py: `estimate_cost`, with what an evaluation charges in Cost and Spend;
--               Bind pins the calls of a plan to the frozen manifest, and Admission has
--               `validate_plan` and `admit_plan`, with what an admitted plan satisfies in Admits,
--               Grants and Pinned.
--   Dispatch    julep/dispatch.py: the window of a batch.
--   Debounce    julep/execution/debounce.py: the collector that makes a batch of a burst. Steps has the
--               states it can be in, Queue its invariant, Sent and Drain what it sends and how it ends.
--   Gc          julep/gc.py: the closure of a lease, and the mark and sweep of the artifact store, with
--               what is left of the store in Swept.
--   Transcript  julep/transcript.py: the transcript of an agent's trace, with the token budget in Suffix
--               and the pairs of calls and results in Paired.
--   Continuation  julep/continuation.py: the driver of a flow that asks to be run again.
--   Agent       julep/agent_loop.py: who may call what, and how often, with the bound in Limits.
--   Resilience  julep/resilience.py: the breaker, with a history of calls in Breaker/History, the
--               fallback chain in Policy, and the error taxonomy in Errors. Caller walks the chain
--               around the calls of a model, after `make_resilient_llm_caller` of
--               julep/execution/llm.py; its fuel for a model is the largest attempt budget.
--   Projection  julep/projection.py: the events that an evaluation records, and what is pending, on
--               the in-memory store. Projection/Paired says which lists of events are well formed.
--   Interpreter  julep/execution/interpreter.py. Env has what an evaluation asks of its environment,
--               and computations that may raise; Calls the contract of a call and its retries; Parts
--               what `_eval` reads off a node; Prims `_eval_prim`; Branches the operators that
--               evaluate children, `_eval_par` and `_eval_each` among them; Eval `interpret` and
--               `_eval`; and Race `race_first_from_thunks`. Order says what is
--               asked of an environment that runs branches one after another, as the in-memory one
--               does with handlers that never wait; Static which flows are bounded by their own size. Under Eval, Keeps and Projected
--               are about what is recorded, Plain, Rules and Ends about what ends.
--   Samples     small inputs; Samples/OneByOne runs branches one after another.
--
-- How the code is translated:
--   A `str` is the list of its code points. A dict with text keys is a list of entries in sorted
--   order where the code sorts it, and an association list otherwise. A diagnostic has its code,
--   its node and its severity, and no message or hint. An `int` is unbounded; a cost is a whole
--   number of the smallest unit that the flow uses, and a finite float is a quotient of integers.
--   A clock is an argument of each operation that reads it, and a duration a whole number of ticks.
--   The flow is a tree, so the analyses of nodes are by structural recursion. Only the scan of
--   races, which goes on with the branches of a flattened group, runs on fuel: one unit for each call,
--   and it has as many as the flow has nodes, which is enough by Derived/Enough.
--   `detect_cycles` of julep/validate.py, which looks for shared or cyclic Python objects, has no
--   counterpart. The search of the exceptions behind an error runs on fuel, one unit for each
--   iteration of the loop: an object is entered once and pushes its two links, so one more than
--   twice the number of objects is enough.
--   The interpreter runs on fuel: a call of `interpret` spends one unit, and so does a turn of a
--   LOOP, which has no bound of its own. A flow without LOOP, without plans compiled at run time and
--   without a `par` of an unknown kind needs as many units as it has nodes. Python's values and
--   floats, the handlers of an environment and its concurrency are arguments. A wait of a race is an
--   argument too: which branches are done, and whether the timer is; and so is what the value store of
--   the projection raises on a value, which it keeps as JSON.
--   An exception of the modelled Python code is `raise`, without its message. Exception objects
--   that refer to each other are addresses in a heap.
--   `str.lower` is an argument of the error taxonomy, and `unit`, the cost 1.0 in the smallest unit,
--   of the estimate. Three computations are arguments of the gate: `registered` (the registry of
--   pure functions), `reserved` (the scan of a reply schema for controller properties) and
--   `incompatible` (the test of two schemas along an edge). The enforcement of capabilities has two:
--   the model of a registered reasoner, and the test of a version against a pin. No theorem assumes
--   anything of them.
--
-- Not modelled: the attributes of the interpreter's results, their costs but for `_projection_cost`,
-- which is in Staged/Cost, the handlers of its environments, the durable backends (Temporal and DBOS), the model providers, the command line, the
-- server, and the stores. They are input and output around the modelled parts, or stand on
-- third-party services. `race_first_from_thunks` is proved on its own: the theorems on `interpret`
-- have branches that run to their end, and not those that a race cancels midway.
pub mod Prelude
pub mod Kinds
pub mod Json
pub mod Interpreter
pub mod Projection
pub mod Ir
pub mod Shapes
pub mod Contracts
pub mod Dsl
pub mod Derived
pub mod Transforms
pub mod Validate
pub mod Gc
pub mod Transcript
pub mod Continuation
pub mod Agent
pub mod Resilience
pub mod Capabilities
pub mod Staged
pub mod Dispatch
pub mod Debounce
mod Samples
