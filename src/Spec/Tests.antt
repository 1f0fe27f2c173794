-- ===== src/Spec/Tests.antt =====
-- A draft with space round it, and the spec that is stored for it.
use breckr.Base.{
  Text, codes, true, false, Option, none, some, [], ◌∷◌, ok, ◌≡◌, refl, ◌==◌, Text_eq,
  if◌then◌else◌, Bool, text_beq, trim_space, subst, ap,
}
use breckr.Types.Task.{TaskSpec, match_any, number, text, gt, changed}
use breckr.Types.Words.{DraftSpec}
use breckr.Spec.{ParsedUrl, Parsers, validate_spec}
use breckr.Spec.Checks.{IsGiven}
use breckr.Spec.Usable.{IsUsable, validate_spec-IsUsable}
use breckr.Spec.Again.{Reprints, draft_of, validate_spec-draft_of}

abbrev shop : Text
shop = codes "https://shop.example/"

abbrev shop_url : ParsedUrl
shop_url = record { scheme = codes "https"; host = codes "shop.example"; printed = shop }

-- One URL parses, with a slash at its end or without.
abbrev parse_shop : Text → Option ParsedUrl
parse_shop v =
    if v == shop
    then some shop_url
    else if v == codes "https://shop.example"
    then some shop_url
    else none

abbrev parsers : Parsers
parsers = record { parse_url = parse_shop; is_float = λ s. true; is_cron = λ s. true }

only_shop :
    (b c : Bool) (u : ParsedUrl)
    → (if b then some shop_url else if c then some shop_url else none) ≡ some u
    → shop_url ≡ u
only_shop true c u h = cc h
only_shop false true u h = cc h
only_shop false false u h = cc h

parse_shop-shop_url : (v : Text) (u : ParsedUrl) → parse_shop v ≡ some u → shop_url ≡ u
parse_shop-shop_url v u h = only_shop (v == shop) (v == codes "https://shop.example") u h

shop-Reprints : Reprints parsers (codes "https://shop.example")
unfolding trim_space text_beq
shop-Reprints = record {
  printed_given = λ u h.
      subst (λ (x : ParsedUrl). IsGiven x.printed)
        (parse_shop-shop_url (codes "https://shop.example") u h)
        (record { trimmed = refl; some_byte = refl });
  reparses = λ u h.
      let is = parse_shop-shop_url (codes "https://shop.example") u h in
      (
        shop_url,
        subst (λ (x : ParsedUrl). parse_shop x.printed ≡ some shop_url) is refl,
        ap (λ (x : ParsedUrl). x.scheme) is,
        ap (λ (x : ParsedUrl). x.host) is,
        ap (λ (x : ParsedUrl). x.printed) is,
      );
}

abbrev draft : DraftSpec
draft = record {
  url = codes " https://shop.example ";
  match_mode = codes "any";
  conditions =
      record {
        selector = codes " .price";
        wait_for_selector = codes " ";
        extract = codes "number";
        attribute_name = codes "href";
        operator = codes "gt";
        value = codes "10 ";
      }
      ∷ record {
        selector = codes "h1";
        wait_for_selector = [];
        extract = codes "text";
        attribute_name = [];
        operator = codes "changed";
        value = codes "left over";
      }
      ∷ [];
  message = codes "Now {{ value2 }} at {{url}} ";
}

abbrev stored : TaskSpec
stored = record {
  url = shop;
  match_mode = match_any;
  conditions =
      record {
        selector = codes ".price";
        wait_for_selector = [];
        extract = number;
        attribute_name = [];
        operator = gt;
        value = codes "10";
      }
      ∷ record {
        selector = codes "h1";
        wait_for_selector = [];
        extract = text;
        attribute_name = [];
        operator = changed;
        value = [];
      }
      ∷ [];
  message = codes "Now {{ value2 }} at {{url}}";
}

validate_spec-IsUsable_example : IsUsable parsers stored
unfolding validate_spec text_beq
validate_spec-IsUsable_example = validate_spec-IsUsable parsers draft stored refl

validate_spec-draft_of_example : validate_spec parsers (some (draft_of stored)) ≡ ok stored
unfolding validate_spec text_beq trim_space
validate_spec-draft_of_example = validate_spec-draft_of parsers draft stored shop-Reprints refl
