-- ===== src/Evaluator.antt =====
-- skill/src/autonomy/policy-evaluator.ts. The language model behind the interface is injected by
-- the agent's runtime: it is the argument `PolicyEvaluator` of what uses it, and stands for its
-- answers while one message is processed. `none` is a promise that rejects.
use pinch.Prelude.{String, Option, some, List}
use pinch.Feed.{Action, Confidence, escalate, low}

pub record PolicyDecision : Type 0 where
  pub action : Action
  pub confidence : Confidence
  pub reasoning : String

pub record PolicyQuestion : Type 0 where
  pub policy : String
  pub message_body : String
  pub sender_address : String
  pub connection_nickname : String

pub record PolicyEvaluator : Type 0 where
  pub evaluate_policy : PolicyQuestion → Option PolicyDecision
  pub check_information_boundary :
      (boundaries : List String) → (content : String) → Option PolicyDecision

abbrev no_llm : PolicyDecision
no_llm = record {
  action = escalate;
  confidence = low;
  reasoning = "No LLM available -- escalating to human";
}

-- `NoOpPolicyEvaluator`
abbrev pub no_op_evaluator : PolicyEvaluator
no_op_evaluator = record {
  evaluate_policy = λ q. some no_llm;
  check_information_boundary = λ boundaries content. some no_llm;
}
