-- ===== src/Chaos/Runner/Plan.antt =====
-- chaos/runner.py: `describe_step` and `render_plan`, the text that `--dry-run` prints. Python's
-- printing of a number is a parameter.
use swarmscope.Base.{ℕ, ◌+◌, List, [], ◌∷◌, ◌++◌, Text, codes}
use swarmscope.Chaos.Catalogue.{
  value_of, Step, compose_stop, compose_start, topic_status, subscription_status, Check, sql_check,
  http_check, Fault,
}

-- the texts, one after the other
abbrev pub concat_texts : List Text → Text
concat_texts [] = []
concat_texts (t ∷ ts) = t ++ concat_texts ts

unfoldable pub describe_step : Step → Text
describe_step (compose_stop service) =
    concat_texts (codes "compose stop " ∷ service ∷ codes " (project swarmscope)" ∷ [])
describe_step (compose_start service) =
    concat_texts (codes "compose start " ∷ service ∷ codes " (project swarmscope)" ∷ [])
describe_step (topic_status topic status) =
    concat_texts (codes "set topic " ∷ topic ∷ codes " status to " ∷ value_of status ∷ [])
describe_step (subscription_status topic subscription status) = concat_texts (
    codes "set subscription "
    ∷ topic
    ∷ codes "/"
    ∷ subscription
    ∷ codes " status to "
    ∷ value_of status
    ∷ [])

abbrev pub description_of : Check → Text
description_of (sql_check query comparison threshold describe) = describe
description_of (http_check method path body status_at_least describe) = describe

-- `"\n".join(lines) + "\n"`
abbrev pub join_lines : List Text → Text
join_lines [] = []
join_lines (l ∷ ls) = l ++ (10 ∷ join_lines ls)

module _ (print : ℕ → Text) where
  -- the numbered steps, from the index on
  unfoldable pub step_lines : ℕ → List Step → List Text
  unfolding describe_step
  step_lines n [] = []
  step_lines n (s ∷ steps) =
      concat_texts (codes "  " ∷ print n ∷ codes ". " ∷ describe_step s ∷ [])
      ∷ step_lines (n + 1) steps

  unfoldable pub render_plan : Fault → Text → Text
  unfolding step_lines
  render_plan fault state_path = join_lines (
      ((codes "fault: " ++ fault.id)
        ∷ (codes "state file: " ++ state_path)
        ∷ (codes "precheck (must be false): " ++ description_of fault.detects)
        ∷ codes "record recovery obligation"
        ∷ codes "inject:"
        ∷ [])
      ++ (step_lines 1 fault.inject
          ++ ((concat_texts (codes "wait: " ∷ print fault.settle_seconds ∷ codes " seconds" ∷ [])
                ∷ (codes "injection check (must be true): " ++ description_of fault.detects)
                ∷ codes "revert:"
                ∷ [])
              ++ (step_lines 1 fault.revert
                  ++ ((codes "recovery check (must be false): " ++ description_of fault.detects)
                      ∷ codes "clear state only after verified recovery"
                      ∷ [])))))
