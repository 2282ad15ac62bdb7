-- ===== src/Samples/Staging.antt =====
-- Shapes on small inputs.
use julep.Prelude.{◌≡◌, refl, text, return, here, there, arith}
use julep.Kinds.{feedback, pipeline, shape_join}
use julep.Shapes.{surface_shape, closed_shape}
use julep.Shapes.Executed.{self, inside}
use julep.Shapes.Order.{NoCostlier, surface-le-closed}
use julep.Shapes.Bounded.{IsBounded, closed_shape-IsBounded}
use julep.Samples.Flows.{hidden_agent, retrying, call_node}

surface_hidden : surface_shape hidden_agent ≡ return pipeline
unfolding surface_shape
surface_hidden = refl

surface-le-closed_example : NoCostlier (surface_shape hidden_agent) (closed_shape hidden_agent)
surface-le-closed_example = surface-le-closed hidden_agent

closed_retrying : closed_shape retrying ≡ return feedback
unfolding closed_shape shape_join
closed_retrying = refl

closed_shape-IsBounded_example : IsBounded (call_node (text "b") (text "store"))
closed_shape-IsBounded_example = closed_shape-IsBounded feedback closed_retrying (omega arith) (
    inside retrying _ _ here
      (inside _ _ _ (there here) (self (call_node (text "b") (text "store")))))
