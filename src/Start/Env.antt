-- ===== src/Start/Env.antt =====
-- src/envonly.c: what emuroot_run_envonly tells the program by its environment.
use emuroot.Base.{
  ℕ, ◌+◌, ◌-◌, ◌*◌, ◌≤◌, ◌<◌, ◌≡◌, refl, true, List, [], ◌∷◌, ◌++◌, ltb, ◌==◌, if◌then◌else◌,
  length, length-append, take, take_all, arith, Bool-cases, inl, inr,
}
use emuroot.Cstring.{bytes, snprintf}
use emuroot.Context.{Ctx, Binding, path_len, max_bindings}
use emuroot.Start.{bindings_text}

-- `sizeof bindings`
abbrev pub bindings_size : ℕ
bindings_size = max_bindings * (2 * path_len + 2)

-- What the format "%s%s:%s" makes of a binding.
abbrev binding_text : ℕ → Binding → List ℕ
binding_text pos b = (if pos == 0 then [] else bytes ";") ++ (b.host ++ (bytes ":" ++ b.guest))

-- The loop over the bindings: the text in the buffer, and `pos`.
unfoldable pub write_bindings : List ℕ × ℕ → List Binding → List ℕ × ℕ
write_bindings (out, pos) [] = (out, pos)
write_bindings (out, pos) (b ∷ bs) =
    let text = binding_text pos b in
    let rest = write_bindings (out ++ snprintf (bindings_size - pos) text, pos + length text) bs in
    if ltb pos bindings_size then rest else (out, pos)

-- The variables that are set, in turn. `ids_text` is what the format "%u:%u" makes of two ids.
unfoldable pub environment : (ℕ → ℕ → List ℕ) → Ctx → List (List ℕ × List ℕ)
environment ids_text c =
    let (out, pos) = write_bindings ([], 0) (take c.nbindings c.bindings) in
    (if length c.root == 0 then [] else (bytes "EMUROOT_ROOT", c.root) ∷ [])
    ++ ((if pos == 0 then [] else (bytes "EMUROOT_BINDINGS", out) ∷ [])
        ++ (if c.has_fake_ids
            then (bytes "EMUROOT_FAKE_IDS", snprintf 32 (ids_text c.fake_uid c.fake_gid)) ∷ []
            else []))

-- A binding's paths fit their fields.
abbrev pub AllFit : List Binding → Type 0
AllFit [] = Unit {0}
AllFit (b ∷ bs) = (length b.host < path_len) × (length b.guest < path_len) × AllFit bs

length-binding_text :
    (pos : ℕ) (b : Binding)
    → length b.host < path_len
    → length b.guest < path_len
    → length (binding_text pos b) ≤ 2 * path_len
length-binding_text pos b h g = elim (Bool-cases (pos == 0)) [
  | inl e ↦ rw e (simp (length-append) (omega arith))
  | inr e ↦ rw e (simp (length-append) (omega arith))
]

write_fits :
    (text : List ℕ) (bs : List Binding)
    → AllFit bs
    → length text + length bs * (2 * path_len) < bindings_size
    → (write_bindings (text, length text) bs
        ≡ (bindings_text text bs, length (bindings_text text bs)))
      × (length (bindings_text text bs) ≤ length text + length bs * (2 * path_len))
unfolding write_bindings bindings_text
write_fits text [] fit h = (refl, omega arith)
write_fits text (b ∷ bs) fit h =
    let t = binding_text (length text) b in
    let short = length-binding_text (length text) b fit.0 fit.1 in
    let grown : length (text ++ t) ≡ length text + length t = length-append text t in
    let whole : snprintf (bindings_size - length text) t ≡ t =
      take_all (bindings_size - length text - 1) t (omega arith) in
    let room : ltb (length text) bindings_size ≡ true = ground arith in
    let (e, l) = write_fits (text ++ t) bs fit.2 (omega arith) in
    (rw room (rw whole (rw (← grown) e)), omega arith)

-- The configuration's bindings, no more than the table has room for and each with paths that fit
-- their fields, are all in the text of EMUROOT_BINDINGS, one behind another: the buffer is never
-- written to its end, so nothing is cut.
pub write_bindings_lem :
    (bs : List Binding)
    → length bs ≤ max_bindings
    → AllFit bs
    → (write_bindings ([], 0) bs ≡ (bindings_text [] bs, length (bindings_text [] bs)))
      × (length (bindings_text [] bs) < bindings_size)
write_bindings_lem bs h fit =
    let (e, l) = write_fits [] bs fit (omega arith) in (e, omega (arith, l))
