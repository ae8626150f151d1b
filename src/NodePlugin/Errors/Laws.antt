-- ===== src/NodePlugin/Errors/Laws.antt =====
-- The gRPC codes and the HTTP statuses of one error agree.
use gitrepo_csi_driver.Base.{
  ℕ, ◌≡◌, refl, Bool, false, Error, if◌then◌else◌, ◌==◌, arith, Bool-cases, Option-cases, inl, inr,
}
use gitrepo_csi_driver.NodePlugin.Errors.{
  Code, invalid_argument, permission_denied, deadline, internal, is_deadline_exceeded,
  as_mount_error, mount_status, csi_error, http_status_of,
}

-- The status of an error: the gRPC code that the HTTP status and the deadline call for.
abbrev pub code_of : Bool → ℕ → Code
code_of expired http_status =
    if expired
    then deadline
    else if http_status == 400
    then invalid_argument
    else if http_status == 403
    then permission_denied
    else internal

-- The gRPC code of an error is the deadline's if the error comes from the context's deadline, and else
-- it is the HTTP status that decides: 400 is an invalid argument, 403 a denied permission, and all
-- else an internal error.
pub csi_error-http_status_of :
    (e : Error) → (csi_error e).code ≡ code_of (is_deadline_exceeded e) (http_status_of e)
unfolding csi_error http_status_of mount_status
csi_error-http_status_of e = elim (Bool-cases (is_deadline_exceeded e)) [
  | inl d ↦ rw d refl
  | inr d ↦ elim (Option-cases (as_mount_error e)) [
    | inl m ↦ ground arith
    | inr ((status, inner), m) ↦ rw (d, m, csi_error, http_status_of) (code_of_status status inner)
  ]
]
  where
    code_of_status :
        (status : ℕ) (inner : Error) → (mount_status e (status, inner)).code ≡ code_of false status
    code_of_status status inner = elim (Bool-cases (status == 400)) [
      | inl a ↦ rw a refl
      | inr a ↦ elim (Bool-cases (status == 403)) [
        | inl b ↦ rw (a, b) refl
        | inr b ↦ rw (a, b) refl
      ]
    ]
