-- ===== src/Models/Tests.antt =====
-- Values of domain/models.py.
use moodle_autotask.Base.{◌≡◌, refl, ◌↔◌, true, false, codes, length, All, ok, err}
use moodle_autotask.Models.{Digest}
use moodle_autotask.Models.Checks.{new_digest, new_digest_iff, IsHexDigit, is_blank}
use moodle_autotask.Models.Json.{
  PyValue, text, float_value, dict_value, no_items, item, negsuc, int_value, non_finite_float,
  validate_json_value, validate_json_value_iff, IsJson,
}

abbrev sample : PyValue
sample = dict_value (item (text "a") (int_value (negsuc 0)) no_items)

validate_json_value_iff_example : (validate_json_value sample ≡ ok tt) ↔ IsJson sample
validate_json_value_iff_example = validate_json_value_iff sample

nan_refused :
    validate_json_value (dict_value (item (text "a") (float_value false) no_items))
    ≡ err non_finite_float
unfolding validate_json_value
nan_refused = refl

blank_text : is_blank " \t\n" ≡ true
unfolding is_blank
blank_text = refl

abbrev zeros : Digest
zeros = record { value = "0000000000000000000000000000000000000000000000000000000000000000" }

new_digest_iff_example :
    (new_digest zeros ≡ ok zeros)
    ↔ ((length (codes zeros.value) ≡ 64) × All IsHexDigit (codes zeros.value))
new_digest_iff_example = new_digest_iff zeros
