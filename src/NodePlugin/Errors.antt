-- ===== src/NodePlugin/Errors.antt =====
-- `mountError` of cmd/nodeplugin/main.go and the answers that errors become.
pub mod Laws
use gitrepo_csi_driver.Base.{
  ℕ, Bool, true, false, Option, none, some, Error, errorf, wrapf, deadline_exceeded, mount_error,
  other, if◌then◌else◌, ◌==◌,
}

abbrev pub bad_request : Error → Error
bad_request e = mount_error 400 e

abbrev pub forbidden : Error → Error
forbidden e = mount_error 403 e

-- `errors.Is(err, context.DeadlineExceeded)`
unfoldable pub is_deadline_exceeded : Error → Bool
is_deadline_exceeded deadline_exceeded = true
is_deadline_exceeded (wrapf _ e) = is_deadline_exceeded e
is_deadline_exceeded (mount_error _ e) = is_deadline_exceeded e
is_deadline_exceeded (errorf _ _) = false
is_deadline_exceeded (other _) = false

-- `errors.As(err, &mountErr)`: the status of the outermost one and the error in it.
unfoldable pub as_mount_error : Error → Option (ℕ × Error)
as_mount_error (mount_error http_status e) = some (http_status, e)
as_mount_error (wrapf _ e) = as_mount_error e
as_mount_error deadline_exceeded = none
as_mount_error (errorf _ _) = none
as_mount_error (other _) = none

-- The gRPC codes that the driver uses.
pub data Code : Type 0 where
  invalid_argument permission_denied deadline internal : Code

pub record Status : Type 0 where
  pub code : Code
  pub message : Error

unfoldable pub mount_status : Error → ℕ × Error → Status
mount_status e (http_status, inner) =
    if http_status == 400
    then record { code = invalid_argument; message = inner }
    else if http_status == 403
    then record { code = permission_denied; message = inner }
    else record { code = internal; message = e }

-- `csiError`
unfoldable pub csi_error : Error → Status
csi_error e =
    if is_deadline_exceeded e
    then record { code = deadline; message = e }
    else elim (as_mount_error e) [
      | none ↦ record { code = internal; message = e }
      | some m ↦ mount_status e m
    ]

-- The status code of the HTTP handler.
unfoldable pub http_status_of : Error → ℕ
http_status_of e = elim (as_mount_error e) [
  | some m ↦ m.0
  | none ↦ if is_deadline_exceeded e then 504 else 502
]
