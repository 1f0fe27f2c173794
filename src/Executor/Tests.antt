-- ===== src/Executor/Tests.antt =====
-- Two conditions, over numbers that stand in for floats, and a page that answers the same to all.
use breckr.Base.{
  codes, All, suc, none, ok, text_beq, ℕ, true, false, some, [], ◌∷◌, ltb, leb, nat_eq, length, ◌≡◌,
  refl,
}
use breckr.Types.Task.{
  Condition, TaskSpec, match_any, match_all, changed, number, text, gt, contains,
}
use breckr.Executor.{
  Floats, condition_key, words, amount, TaskResult, evaluate_condition, evaluate_conditions,
}
use breckr.Types.Words.{DraftSpec}
use breckr.Types.Placeholder.{find_all}
use breckr.Spec.{Parsers, validate_spec}
use breckr.Executor.Page.{PageOps, execute}
use breckr.Executor.Complete.{keys_of, execute-outcomes}
use breckr.Executor.Render.{message_values}
use breckr.Executor.Filled.{Has, validated_message-Has}
use breckr.Executor.Verdict.{outcomes, mets, evaluate_conditions-outcomes}

abbrev counts : Floats ℕ
counts = record {
  less = ltb;
  less_eq = leb;
  same = nat_eq;
  nan = 0;
  parse = λ s. some (length s);
  format = λ n. [];
}

abbrev above : Condition
above = record {
  selector = codes ".price";
  wait_for_selector = [];
  extract = number;
  attribute_name = [];
  operator = gt;
  value = codes "aaaaa";
}

abbrev named : Condition
named = record above { extract = text; operator = contains; value = codes "sale" }

abbrev spec : TaskSpec
spec = record {
  url = codes "https://example.com";
  match_mode = match_any;
  conditions = above ∷ named ∷ [];
  message = [];
}

abbrev seen : TaskResult ℕ
seen = record {
  value = amount 3;
  raw = codes "3";
  url = codes "https://example.com";
  checked_at = codes "1";
  checks =
      record { key = codes "a"; value = amount 3; raw = codes "3"; met = false }
      ∷ record { key = codes "b"; value = words (codes "on sale"); raw = []; met = false }
      ∷ [];
}

-- Three is not above five, and the text has the word.
evaluate_conditions-outcomes_example :
    ((evaluate_conditions counts 1 0 spec seen []).0 ≡ true)
    × (mets counts 1 0 [] (evaluate_conditions counts 1 0 spec seen []).1.checks
        ≡ false ∷ true ∷ [])
unfolding outcomes evaluate_condition
evaluate_conditions-outcomes_example =
    evaluate_conditions-outcomes counts 1 0 [] spec seen (λ e. cc e) refl

abbrev same_page : PageOps ℕ
same_page = record {
  navigate = λ url page. (suc page, none);
  wait_for_selector = λ s page. (suc page, none);
  has = λ s page. (page, ok true);
  count_of = λ s page. (page, ok 2);
  attribute_of = λ s a page. (page, ok []);
  text_of = λ s page. (page, ok (codes " on sale: 12 "));
}

abbrev read : TaskResult ℕ
unfolding execute
read = record {
  value = amount 2;
  raw = codes "on sale: 12";
  url = codes "https://example.com";
  checked_at = codes "now";
  checks =
      record {
        key = condition_key (λ s. s) above;
        value = amount 2;
        raw = codes "on sale: 12";
        met = false;
      }
      ∷ record {
        key = condition_key (λ s. s) named;
        value = words (codes "on sale: 12");
        raw = codes "on sale: 12";
        met = false;
      }
      ∷ [];
}

-- The text has two digits, which is not above five, and the word.
execute-outcomes_example :
    (keys_of same_page counts (λ n. n) (λ s. s) read.checks
      ≡ condition_key (λ s. s) above ∷ condition_key (λ s. s) named ∷ [])
    × ((evaluate_conditions counts 1 0 spec read []).0 ≡ true)
unfolding outcomes evaluate_condition execute text_beq
execute-outcomes_example =
    execute-outcomes same_page counts (λ n. n) (λ s. s) 1 0 [] (codes "now") spec 0 3 read
      (λ e. cc e) refl

abbrev parsers : Parsers
parsers = record {
  parse_url = λ v. some (record { scheme = codes "https"; host = codes "h"; printed = v });
  is_float = λ s. true;
  is_cron = λ s. true;
}

abbrev draft : DraftSpec
draft = record {
  url = codes "https://example.com";
  match_mode = [];
  conditions =
      record {
        selector = codes "h1";
        wait_for_selector = [];
        extract = codes "text";
        attribute_name = [];
        operator = codes "changed";
        value = [];
      }
      ∷ [];
  message = codes "{{name}}: {{ raw1 }}";
}

abbrev stored : TaskSpec
stored = record {
  url = codes "https://example.com";
  match_mode = match_all;
  conditions =
      record {
        selector = codes "h1";
        wait_for_selector = [];
        extract = text;
        attribute_name = [];
        operator = changed;
        value = [];
      }
      ∷ [];
  message = codes "{{name}}: {{ raw1 }}";
}

abbrev one_check : TaskResult ℕ
one_check = record seen {
  checks = record { key = codes "a"; value = amount 3; raw = codes "3"; met = false } ∷ [];
}

validated_message-Has_example :
    All
      (λ name. Has name (message_values counts 1 0 one_check (codes "Price")))
      (codes "name" ∷ codes "raw1" ∷ [])
unfolding validate_spec find_all text_beq
validated_message-Has_example =
    validated_message-Has counts 1 0 parsers draft stored one_check (codes "Price") refl refl
