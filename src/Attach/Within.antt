-- ===== src/Attach/Within.antt =====
-- internal/attach: whatever files come, and whatever their archives hold, what `Prepare` accepts is
-- within the limits.
use earful.Prelude.{
  List, [], Bool, ◌≡◌, ◌≤◌, inl, ◌++◌, ◌∷◌, ◌||◌, none, some, subst, length, if◌then◌else◌, All, ℕ,
  true, Bool-cases, Option, inr, arith,
}
use earful.Attach.Types.{
  Readers, Member, ◌>>=◌, accepted, refusal, Limits, kind_zip, refused, File, bomb, Attachment,
  Outcome, Kind,
}
use earful.Runtime.{Runtime}
use earful.Attach.Safe.{
  bind_inv, take_in-IsWithin, recognised-is_claimed, add_member-IsWithin, sent, forwarded_bytes,
  IsSniffed, IsWithin,
}
use earful.Attach.Names.{clean_name, ignored_member, member_name}
use earful.Attach.Identify.{read_member, with_name, is_claimed}
use earful.Attach.Prepare.{
  recognised, prepare, add_member, unpack_opened, unpack, scan, Preparer, expands, add_kind,
  prepare_files, unpack_member, add_file, unpack_members, given_limits,
}
use earful.Prelude.Text.{Text}

module _ ⦃u : Runtime⦄ ⦃r : Readers⦄ where
  unpack_member-IsWithin :
      (lim : Limits) (name : Text) (p q : Preparer) (f : Member)
      → IsWithin lim p
      → unpack_member lim name p f ≡ accepted q
      → IsWithin lim q
  unfolding unpack_member
  unpack_member-IsWithin lim name p q f w h =
      let member = name ++ b'/' ∷ member_name f.name in
      let after : List ℕ → Outcome Preparer = λ content.
        if expands (length content) f.compressed lim.max_ratio
        then refused (refusal bomb member)
        else add_member lim p member content in
      elim (Bool-cases (f.is_dir || ignored_member f.name)) [
        | inl skipped ↦ subst (IsWithin lim) (sent p q (ground (arith, skipped, h))) w
        | inr wanted ↦
            (let read : (with_name member (read_member lim.max_file_bytes f) >>= after)
                  ≡ accepted q =
                ground (arith, wanted, h) in
              let step =
                bind_inv (with_name member (read_member lim.max_file_bytes f)) after q read in
              elim (Bool-cases (expands (length step.0) f.compressed lim.max_ratio)) [
                | inl bombed ↦ absurd (ground (arith, bombed, step.2))
                | inr fair ↦
                    add_member-IsWithin lim p q member step.0 w (ground (arith, fair, step.2))
              ])
      ]

  unpack_members-IsWithin :
      (lim : Limits) (name : Text) (fs : List Member) (p q : Preparer)
      → IsWithin lim p
      → unpack_members lim name p fs ≡ accepted q
      → IsWithin lim q
  unfolding unpack_members
  unpack_members-IsWithin lim name [] p q w h = subst (IsWithin lim) (sent p q h) w
  unpack_members-IsWithin lim name (f ∷ fs) p q w h =
      let step = bind_inv (unpack_member lim name p f) (λ x. unpack_members lim name x fs) q h in
      unpack_members-IsWithin lim name fs step.0 q
        (unpack_member-IsWithin lim name p step.0 f w step.1) step.2

  unpack-IsWithin :
      (lim : Limits) (p q : Preparer) (name : Text) (members : Option (List Member))
      → IsWithin lim p
      → unpack_opened lim name p members ≡ accepted q
      → IsWithin lim q
  unfolding unpack_opened
  unpack-IsWithin lim p q name none w h = absurd (ground arith)
  unpack-IsWithin lim p q name (some fs) w h = unpack_members-IsWithin lim name fs p q w h

  add_kind-IsWithin :
      (lim : Limits) (p q : Preparer) (name : Text) (content : List ℕ) (k : Kind)
      → IsWithin lim p
      → is_claimed k content ≡ true
      → add_kind lim p name content k ≡ accepted q
      → IsWithin lim q
  unfolding add_kind unpack
  add_kind-IsWithin lim p q name content kind_zip w c h =
      unpack-IsWithin lim p q name (r.unzip content) w h
  add_kind-IsWithin lim p q name content k w c h = take_in-IsWithin lim p q name content k w c h

  add_file-IsWithin :
      (lim : Limits) (p q : Preparer) (name : Text) (content : List ℕ)
      → IsWithin lim p
      → add_file lim p name content ≡ accepted q
      → IsWithin lim q
  unfolding add_file
  add_file-IsWithin lim p q name content w h =
      let step = bind_inv (recognised lim name content) (add_kind lim p name content) q h in
      add_kind-IsWithin lim p q name content step.0 w
        (recognised-is_claimed lim name content step.0 step.1) step.2

  prepare_files-IsWithin :
      (lim : Limits) (scanning : Bool) (fs : List File) (p q : Preparer)
      → IsWithin lim p
      → prepare_files lim scanning p fs ≡ accepted q
      → IsWithin lim q
  unfolding prepare_files
  prepare_files-IsWithin lim scanning [] p q w h = subst (IsWithin lim) (sent p q h) w
  prepare_files-IsWithin lim scanning (f ∷ fs) p q w h =
      let name = clean_name f.name in
      let scanned =
        bind_inv (scan scanning name f.content)
          (λ x. add_file lim p name f.content >>= λ y. prepare_files lim scanning y fs) q h in
      let step =
        bind_inv (add_file lim p name f.content) (λ y. prepare_files lim scanning y fs) q
          scanned.2 in
      prepare_files-IsWithin lim scanning fs step.0 q
        (add_file-IsWithin lim p step.0 name f.content w step.1) step.2

  -- Whatever is uploaded, what a model is sent is at most as many attachments as the limit that is
  -- given, or the default for limits that are all nought, archives' members counted, the bytes forwarded as they were uploaded are at most the limit on all of them
  -- together, and each attachment that is sent as a PDF, a PNG or a JPEG has content that is
  -- recognised as one.
  pub prepare-IsWithin :
      (lim : Limits) (scanning : Bool) (files : List File) (out : List Attachment)
      → prepare lim scanning files ≡ accepted out
      → (length out ≤ (given_limits lim).max_files)
        × (forwarded_bytes out ≤ (given_limits lim).max_total_bytes)
        × All IsSniffed out
  unfolding prepare forwarded_bytes
  prepare-IsWithin lim scanning files out h =
      let limits = given_limits lim in
      let start : Preparer = record { out = []; total = 0 } in
      let fresh : IsWithin limits start = record {
        few = omega arith;
        small = omega arith;
        counted = omega arith;
        sniffed = tt;
      } in
      let step = bind_inv (prepare_files limits scanning start files) (λ p. accepted p.out) out h in
      let w = prepare_files-IsWithin limits scanning files start step.0 fresh step.1 in
      subst
        (λ o.
          (length o ≤ limits.max_files)
          × (forwarded_bytes o ≤ limits.max_total_bytes)
          × All IsSniffed o)
        (sent step.0.out out step.2) (w.few, omega (arith, w.counted, w.small), w.sniffed)
