-- ===== src/Models/Checks.antt =====
-- domain/models.py: `_require_text` and the `__post_init__` checks of the dataclasses. A check
-- returns the value that the constructor would build, or the message of its `ValueError`.
use moodle_autotask.Base.{
  ℕ, ◌≤◌, String, ◌≡◌, refl, ◌↔◌, ◌⊎◌, Bool, true, false, not, ◌&&◌, ◌||◌, Option, none, some, List,
  [], ◌∷◌, arith, leb, ◌==◌, if◌then◌else◌, codes, length, all, any, All, Result, ok, err,
}
use moodle_autotask.Models.{
  TaskId, WorkflowRevision, Digest, LabHandle, ArtifactReference, ManifestReference, ApprovalRecord,
  LabProvisionRequest, ExecutionRequest, ExecutionMode, auto,
}

-- What `str.strip` removes: the characters for which `str.isspace` holds.
abbrev pub is_space : ℕ → Bool
is_space c =
    (leb 0x9 c && leb c 0xd)
    || (leb 0x1c c && leb c 0x20)
    || c == 0x85
    || c == 0xa0
    || c == 0x1680
    || (leb 0x2000 c && leb c 0x200a)
    || c == 0x2028
    || c == 0x2029
    || c == 0x202f
    || c == 0x205f
    || c == 0x3000

-- `not value.strip()`
unfoldable pub is_blank : String → Bool
is_blank s = all is_space (codes s)

pub data ModelError : Type 0 where
  blank : String → ModelError
  digest_malformed mode_not_selected image_reference_blank capability_blank : ModelError

unfoldable pub require_text : String → String → Result ModelError Unit
unfolding is_blank
require_text value name = if is_blank value then err (blank name) else ok tt

infixl 5 ◌>>◌
abbrev ◌>>◌ : {A : Type 0} → Result ModelError Unit → Result ModelError A → Result ModelError A
ok _ >> r = r
err e >> _ = err e

abbrev refuse_if : Bool → ModelError → Result ModelError Unit
refuse_if true e = err e
refuse_if false _ = ok tt

unfoldable pub new_task_id : TaskId → Result ModelError TaskId
new_task_id v = require_text v.value "task id" >> ok v

unfoldable pub new_workflow_revision : WorkflowRevision → Result ModelError WorkflowRevision
new_workflow_revision v = require_text v.value "workflow revision" >> ok v

unfoldable pub new_lab_handle : LabHandle → Result ModelError LabHandle
new_lab_handle v = require_text v.value "lab handle" >> ok v

unfoldable pub new_artifact_reference : ArtifactReference → Result ModelError ArtifactReference
new_artifact_reference v = require_text v.uri "artifact URI" >> ok v

unfoldable pub new_manifest_reference : ManifestReference → Result ModelError ManifestReference
new_manifest_reference v = require_text v.uri "manifest URI" >> ok v

unfoldable pub new_approval_record : ApprovalRecord → Result ModelError ApprovalRecord
new_approval_record v = require_text v.approver "approver" >> ok v

-- A character of `"0123456789abcdef"`.
abbrev pub is_hex : ℕ → Bool
is_hex c = (leb b'0' c && leb c b'9') || (leb b'a' c && leb c b'f')

unfoldable pub new_digest : Digest → Result ModelError Digest
new_digest v =
    refuse_if (not (length (codes v.value) == 64) || any (λ c. not (is_hex c)) (codes v.value))
      digest_malformed
    >> ok v

abbrev is_auto : ExecutionMode → Bool
is_auto auto = true
is_auto _ = false

-- `image_reference is not None and not image_reference.strip()`
abbrev is_blank_image : Option String → Bool
is_blank_image none = false
is_blank_image (some s) = is_blank s

unfoldable pub new_lab_provision_request :
    LabProvisionRequest → Result ModelError LabProvisionRequest
new_lab_provision_request v =
    refuse_if (is_auto v.requested_mode) mode_not_selected
    >> refuse_if (is_blank_image v.image_reference) image_reference_blank
    >> ok v

unfoldable pub new_execution_request : ExecutionRequest → Result ModelError ExecutionRequest
new_execution_request v =
    refuse_if (is_auto v.selected_mode) mode_not_selected
    >> refuse_if (any is_blank v.capabilities) capability_blank
    >> ok v

-- A decimal digit, or a letter from `a` to `f`.
abbrev pub IsHexDigit : ℕ → Type 0
IsHexDigit c = ((b'0' ≤ c) × (c ≤ b'9')) ⊎ ((b'a' ≤ c) × (c ≤ b'f'))

hex_digits : (cs : List ℕ) → any (λ c. not (is_hex c)) cs ≡ false → All IsHexDigit cs
hex_digits [] h = tt
hex_digits (c ∷ cs) h = (ground arith, hex_digits cs (ground arith))

hex_digits_conv : (cs : List ℕ) → All IsHexDigit cs → any (λ c. not (is_hex c)) cs ≡ false
hex_digits_conv [] h = refl
hex_digits_conv (c ∷ cs) h = ground (arith, hex_digits_conv cs h.1)

-- A digest is admitted exactly if its value has 64 characters, each a decimal digit or one of the
-- letters `a` to `f`.
pub new_digest_iff :
    (v : Digest)
    → (new_digest v ≡ ok v) ↔ ((length (codes v.value) ≡ 64) × All IsHexDigit (codes v.value))
unfolding new_digest
new_digest_iff v = (
  λ h. (ground arith, hex_digits (codes v.value) (ground arith)),
  λ h. ground (arith, hex_digits_conv (codes v.value) h.1),
)
