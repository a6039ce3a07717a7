-- ===== src/Models/Json.antt =====
-- domain/models.py: `_validate_json_value`, which `Digest.of_json` runs before it serialises a
-- value. The values of Python that it tells apart are a data type; `other` is any further object,
-- such as a tuple or a set. An integer's digits and a float's value are not looked at.
use moodle_autotask.Base.{
  ℕ, String, ◌≡◌, refl, ◌↔◌, Bool, true, false, arith, if◌then◌else◌, Result, ok, err,
}

-- An `int` of Python, `negsuc n` for -(n + 1).
pub data ℤ : Type 0 where
  pos negsuc : ℕ → ℤ

mutual
  pub data PyValue : Type 0 where
    none_value : PyValue
    bool_value : Bool → PyValue
    text : String → PyValue
    int_value : ℤ → PyValue
    float_value : (is_finite : Bool) → PyValue
    list_value : PyList → PyValue
    dict_value : PyItems → PyValue
    other : PyValue

  pub data PyList : Type 0 where
    nil : PyList
    cons : PyValue → PyList → PyList

  pub data PyItems : Type 0 where
    no_items : PyItems
    item : PyValue → PyValue → PyItems → PyItems

pub data JsonError : Type 0 where
  non_finite_float key_not_text not_json_compatible : JsonError

abbrev is_text : PyValue → Bool
is_text (text _) = true
is_text _ = false

infixl 5 ◌>>◌
abbrev ◌>>◌ : Result JsonError Unit → Result JsonError Unit → Result JsonError Unit
ok _ >> r = r
err e >> _ = err e

unfoldable mutual
  pub validate_json_value : PyValue → Result JsonError Unit
  validate_json_value none_value = ok tt
  validate_json_value (bool_value _) = ok tt
  validate_json_value (text _) = ok tt
  validate_json_value (int_value _) = ok tt
  validate_json_value (float_value is_finite) = if is_finite then ok tt else err non_finite_float
  validate_json_value (list_value xs) = validate_list xs
  validate_json_value (dict_value fs) = validate_items fs
  validate_json_value other = err not_json_compatible

  -- `for item in value`
  pub validate_list : PyList → Result JsonError Unit
  validate_list nil = ok tt
  validate_list (cons x xs) = validate_json_value x >> validate_list xs

  -- `for key, item in value.items()`
  pub validate_items : PyItems → Result JsonError Unit
  validate_items no_items = ok tt
  validate_items (item k v fs) =
      (if is_text k then ok tt else err key_not_text) >> validate_json_value v >> validate_items fs

-- The values that JSON can stand for: scalars that are no NaN or infinity, lists of such values,
-- and objects whose keys are texts and whose members are such values.
mutual
  pub data IsJson : PyValue → Type 0 where
    null : IsJson none_value
    boolean : (b : Bool) → IsJson (bool_value b)
    string : (s : String) → IsJson (text s)
    integer : (n : ℤ) → IsJson (int_value n)
    number : IsJson (float_value true)
    array : {xs : PyList} → AllJson xs → IsJson (list_value xs)
    object : {fs : PyItems} → AllMembers fs → IsJson (dict_value fs)

  pub data AllJson : PyList → Type 0 where
    end : AllJson nil
    next : {x : PyValue} {xs : PyList} → IsJson x → AllJson xs → AllJson (cons x xs)

  pub data AllMembers : PyItems → Type 0 where
    done : AllMembers no_items
    member :
        (k : String) {v : PyValue} {fs : PyItems}
        → IsJson v
        → AllMembers fs
        → AllMembers (item (text k) v fs)

>>-ok : (r s : Result JsonError Unit) → (r >> s) ≡ ok tt → (r ≡ ok tt) × (s ≡ ok tt)
>>-ok (ok tt) s h = (refl, h)
>>-ok (err e) s h = absurd (ground arith)

mutual
  unfolding validate_json_value

  validate_complete : {v : PyValue} → IsJson v → validate_json_value v ≡ ok tt
  validate_complete null = refl
  validate_complete (boolean b) = refl
  validate_complete (string s) = refl
  validate_complete (integer n) = refl
  validate_complete number = refl
  validate_complete (array xs) = validate_list_complete xs
  validate_complete (object fs) = validate_items_complete fs

  validate_list_complete : {xs : PyList} → AllJson xs → validate_list xs ≡ ok tt
  validate_list_complete end = refl
  validate_list_complete (next x xs) = rw (validate_complete x) (validate_list_complete xs)

  validate_items_complete : {fs : PyItems} → AllMembers fs → validate_items fs ≡ ok tt
  validate_items_complete done = refl
  validate_items_complete (member k v fs) = rw (validate_complete v) (validate_items_complete fs)

float_finite : (b : Bool) → validate_json_value (float_value b) ≡ ok tt → IsJson (float_value b)
unfolding validate_json_value
float_finite true h = number
float_finite false h = absurd (ground arith)

member_of :
    (k v : PyValue) (fs : PyItems)
    → (if is_text k then ok tt else err key_not_text) ≡ ok tt
    → IsJson v
    → AllMembers fs
    → AllMembers (item k v fs)
member_of (text k) v fs h jv jf = member k jv jf
member_of none_value v fs h jv jf = absurd (ground arith)
member_of _ v fs h jv jf = absurd (ground arith)

mutual
  unfolding validate_json_value

  validate_sound : (v : PyValue) → validate_json_value v ≡ ok tt → IsJson v
  validate_sound none_value h = null
  validate_sound (bool_value b) h = boolean b
  validate_sound (text s) h = string s
  validate_sound (int_value n) h = integer n
  validate_sound (float_value b) h = float_finite b h
  validate_sound (list_value xs) h = array (validate_list_sound xs h)
  validate_sound (dict_value fs) h = object (validate_items_sound fs h)
  validate_sound other h = absurd (ground arith)

  validate_list_sound : (xs : PyList) → validate_list xs ≡ ok tt → AllJson xs
  validate_list_sound nil h = end
  validate_list_sound (cons x xs) h =
      let (hx, hs) = >>-ok (validate_json_value x) (validate_list xs) h in
      next (validate_sound x hx) (validate_list_sound xs hs)

  validate_items_sound : (fs : PyItems) → validate_items fs ≡ ok tt → AllMembers fs
  validate_items_sound no_items h = done
  validate_items_sound (item k v fs) h =
      let (hkv, hf) = >>-ok _ (validate_items fs) h in
      let (hk, hv) = >>-ok _ (validate_json_value v) hkv in
      member_of k v fs hk (validate_sound v hv) (validate_items_sound fs hf)

-- A value passes the validation exactly if JSON can stand for it.
pub validate_json_value_iff : (v : PyValue) → (validate_json_value v ≡ ok tt) ↔ IsJson v
validate_json_value_iff v = (validate_sound v, validate_complete)
