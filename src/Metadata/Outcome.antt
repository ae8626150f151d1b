-- ===== src/Metadata/Outcome.antt =====
-- What `Write` has done when it returns no error.
use gitrepo_csi_driver.Base.{
  ◌≡◌, inl, inr, sym, ◌∙◌, List, [], ◌∷◌, ◌++◌, append_assoc, append-nil, map, Result, ok, err,
  Result-cases,
}
use gitrepo_csi_driver.Text.{Text}
use gitrepo_csi_driver.Materializer.Action.{◌>>◌, lift, call}
use gitrepo_csi_driver.NodePlugin.Pipeline.{Inputs}
use gitrepo_csi_driver.Metadata.{
  Call, made_all, Fields, fields, meta_dir, file_of, write_fields, write,
}

module _ (answer : List Call → Result (Unit {0})) where
  write_fields_done :
      (meta : Text) (fs : Fields) (trace : List Call)
      → (write_fields answer meta fs trace).0 ≡ ok tt
      → (write_fields answer meta fs trace).1 ≡ trace ++ map (file_of meta) fs
  unfolding write_fields ◌>>◌ lift call
  write_fields_done meta [] trace h = sym (append-nil trace)
  write_fields_done meta (f ∷ fs) trace h =
      let made = trace ++ file_of meta f ∷ [] in
      elim (Result-cases (answer made)) [
        | inl (e, k) ↦ let l : err e ≡ ok tt = rw k at h in cc
        | inr (u, k) ↦ rw k (
            write_fields_done meta fs made (rw k at h)
            ∙ append_assoc trace (file_of meta f ∷ []) (map (file_of meta) fs))
      ]

  -- A call of `write` that returns no error has made the directory and written each field's file, in the
  -- order in which it went over the fields, and nothing else.
  pub write_done :
      (order : Fields → Fields) (root : Text) (inputs : Inputs) (now : Text)
      → (write answer order root inputs now []).0 ≡ ok tt
      → (write answer order root inputs now []).1
        ≡ made_all (meta_dir root) 0o755 ∷ map (file_of (meta_dir root)) (order (fields inputs now))
  unfolding write ◌>>◌ call
  write_done order root inputs now h =
      let made : List Call = made_all (meta_dir root) 0o755 ∷ [] in
      elim (Result-cases (answer made)) [
        | inl (e, k) ↦ let l : err e ≡ ok tt = rw k at h in cc
        | inr (u, k) ↦
            rw k (write_fields_done (meta_dir root) (order (fields inputs now)) made (rw k at h))
      ]
