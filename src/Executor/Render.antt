-- ===== src/Executor/Render.antt =====
-- server/internal/executor/executor.go: the body of an alert, by substitution.
use breckr.Base.{
  Text, codes, ℕ, suc, none, some, List, [], ◌∷◌, ◌++◌, map, join, lookup, put, Text_eq, decimal,
  is_empty, if◌then◌else◌,
}
use breckr.Types.Task.{TaskSpec}
use breckr.Types.Placeholder.{replace_all}
use breckr.Executor.{Floats, CheckResult, TaskResult, stringify}

abbrev pub value_name : ℕ → Text
unfolding decimal
value_name n = codes "value" ++ decimal n

abbrev pub raw_name : ℕ → Text
unfolding decimal
raw_name n = codes "raw" ++ decimal n

module _ {F : Type 0} (ops : Floats F) (one zero' : F) where
  unfoldable pub summarize : TaskResult F → Text
  unfolding stringify
  summarize r = elim r.checks [
    | [] ↦ stringify ops one zero' r.value
    | k ∷ ks ↦
        join (map (λ (c : CheckResult F). stringify ops one zero' c.value) (k ∷ ks)) (codes ", ")
  ]

  -- The loop that adds the numbered values.
  unfoldable pub add_values : ℕ → List (CheckResult F) → List (Text × Text) → List (Text × Text)
  unfolding stringify put value_name raw_name
  add_values n [] values = values
  add_values n (k ∷ ks) values =
      add_values (suc n) ks
        (put (raw_name n) k.raw (put (value_name n) (stringify ops one zero' k.value) values))

  unfoldable pub message_values : TaskResult F → Text → List (Text × Text)
  unfolding add_values
  message_values r name = add_values 1 r.checks (
      (codes "value", stringify ops one zero' r.value)
      ∷ (codes "raw", r.raw)
      ∷ (codes "url", r.url)
      ∷ (codes "name", name)
      ∷ [])

  abbrev pub value_or : List (Text × Text) → Text → Text → Text
  value_or values whole name = elim (lookup name values) [ none ↦ whole | some t ↦ t ]

  -- `RenderMessage`, with `%q` of fmt.
  unfoldable pub render_message : (Text → Text) → TaskSpec → TaskResult F → Text → Text
  unfolding summarize message_values replace_all
  render_message quote spec r name =
      if is_empty spec.message
      then codes "Task "
        ++ (quote name
            ++ (codes " matched: " ++ (summarize r ++ (codes " (" ++ (spec.url ++ codes ")")))))
      else replace_all (value_or (message_values r name)) spec.message
