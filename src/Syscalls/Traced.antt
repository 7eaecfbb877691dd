-- ===== src/Syscalls/Traced.antt =====
-- src/ptrace.c, traced_syscalls: the calls at which a guest under the seccomp filter stops.
use emuroot.Base.{
  ℕ, ◌≡◌, refl, sym, ◌∙◌, ap, ◌≢◌, ◌⊎◌, inl, inr, true, false, not, ◌&&◌, Option, none, some, List,
  [], ◌∷◌, ◌++◌, map, ◌==◌, arith, Bool-cases, Option-cases, &&-eq-true, ==_iff,
}
use emuroot.Syscalls.{
  Name, Abi, PathEntry, ActionEntry, PathSyscall, ActionSyscall, path_entries, action_entries,
  defined_paths, defined_actions, path_syscalls, action_syscalls, first_action, first_path,
  emuroot_action_of, emuroot_find_path_syscall, is_call, defined_number, traced_syscalls, nr_execve,
  nr_execveat, nr_bind, nr_connect, nr_sendto,
}
use emuroot.Syscalls.Index.{name_index}
use emuroot.Syscalls.Tables.{HasDistinctNumbers, fresh_in, Elem}

Elem-append_left : {A : Type 0} (x : A) (xs ys : List A) → Elem x xs → Elem x (xs ++ ys)
Elem-append_left x [] ys m = absurd m
Elem-append_left x (y ∷ xs) ys (inl e) = inl e
Elem-append_left x (y ∷ xs) ys (inr m) = inr (Elem-append_left x xs ys m)

Elem-append_right : {A : Type 0} (x : A) (xs ys : List A) → Elem x ys → Elem x (xs ++ ys)
Elem-append_right x [] ys m = m
Elem-append_right x (y ∷ xs) ys m = inr (Elem-append_right x xs ys m)

Elem-append : {A : Type 0} (x : A) (xs ys : List A) → Elem x (xs ++ ys) → Elem x xs ⊎ Elem x ys
Elem-append x [] ys m = inr m
Elem-append x (y ∷ xs) ys (inl e) = inl (inl e)
Elem-append x (y ∷ xs) ys (inr m) = elim (Elem-append x xs ys m) [
  | inl h ↦ inl (inr h)
  | inr h ↦ inr h
]

first_path-traced :
    (ds : List PathSyscall) (n : ℕ)
    → first_path ds n ≢ none
    → Elem n (map (λ (d : PathSyscall). d.sysno) ds)
unfolding first_path
first_path-traced [] n h = absurd (h refl)
first_path-traced (d ∷ ds) n h = elim (Bool-cases (d.sysno == n)) [
  | inl e ↦ inl (sym ((==_iff _ n).0 e))
  | inr e ↦ inr (first_path-traced ds n (λ q. h (rw e q)))
]

first_action-traced :
    (ds : List ActionSyscall) (n : ℕ)
    → first_action ds n ≢ none
    → Elem n (map (λ (a : ActionSyscall). a.sysno) ds)
unfolding first_action
first_action-traced [] n h = absurd (h refl)
first_action-traced (d ∷ ds) n h = elim (Bool-cases (d.sysno == n)) [
  | inl e ↦ inl (sym ((==_iff _ n).0 e))
  | inr e ↦ inr (first_action-traced ds n (λ q. h (rw e q)))
]

is_call-traced :
    (abi : Abi) (name : Name) (n : ℕ) → is_call abi name n ≡ true → Elem n (defined_number abi name)
unfolding is_call defined_number
is_call-traced abi name n h = elim (Option-cases (abi.number name)) [
  | inl e ↦ cc (rw (e, is_call) at h)
  | inr (m, e) ↦ rw (e, defined_number) (inl ((==_iff n m).0 (rw (e, is_call) at h)))
]

-- The calls that the entry and exit handlers look up or name.
pub data IsHandled (abi : Abi) (n : ℕ) : Type 0 where
  by_path : emuroot_find_path_syscall abi n ≢ none → IsHandled abi n
  by_action : emuroot_action_of abi n ≢ none → IsHandled abi n
  by_execve : is_call abi nr_execve n ≡ true → IsHandled abi n
  by_execveat : is_call abi nr_execveat n ≡ true → IsHandled abi n
  by_bind : is_call abi nr_bind n ≡ true → IsHandled abi n
  by_connect : is_call abi nr_connect n ≡ true → IsHandled abi n
  by_sendto : is_call abi nr_sendto n ≡ true → IsHandled abi n

abbrev paths : Abi → List ℕ
paths abi = map (λ (d : PathSyscall). d.sysno) (path_syscalls abi)

abbrev actions : Abi → List ℕ
actions abi = map (λ (a : ActionSyscall). a.sysno) (action_syscalls abi)

-- The numbers behind those of execve.
named_traced :
    (abi : Abi) (n : ℕ)
    → Elem n (
        defined_number abi nr_bind
        ++ (defined_number abi nr_connect ++ defined_number abi nr_sendto))
    → Elem n (traced_syscalls abi)
unfolding traced_syscalls
named_traced abi n m =
    Elem-append_right n (paths abi) _
      (Elem-append_right n (actions abi) _ (Elem-append_right n (defined_number abi nr_execve) _ m))

-- Every call that the handlers look up or name, but execveat, is among the calls that the filter stops
-- at.
pub handled_traced :
    (abi : Abi) (n : ℕ)
    → IsHandled abi n
    → is_call abi nr_execveat n ≡ false
    → Elem n (traced_syscalls abi)
unfolding traced_syscalls emuroot_find_path_syscall emuroot_action_of
handled_traced abi n (by_path p) other = Elem-append_left n _ _ (first_path-traced _ n p)
handled_traced abi n (by_action p) other =
    Elem-append_right n (paths abi) _ (Elem-append_left n _ _ (first_action-traced _ n p))
handled_traced abi n (by_execve p) other = Elem-append_right n (paths abi) _ (
    Elem-append_right n (actions abi) _ (Elem-append_left n _ _ (is_call-traced abi nr_execve n p)))
handled_traced abi n (by_execveat p) other = cc (p, other)
handled_traced abi n (by_bind p) other =
    named_traced abi n (Elem-append_left n _ _ (is_call-traced abi nr_bind n p))
handled_traced abi n (by_connect p) other = named_traced abi n (
    Elem-append_right n (defined_number abi nr_bind) _
      (Elem-append_left n _ _ (is_call-traced abi nr_connect n p)))
handled_traced abi n (by_sendto p) other = named_traced abi n (
    Elem-append_right n (defined_number abi nr_bind) _
      (Elem-append_right n (defined_number abi nr_connect) _ (is_call-traced abi nr_sendto n p)))

-- An entry list that does not name a macro leaves its number out of the table.
fresh-paths :
    (abi : Abi) (name : Name) (n : ℕ) (es : List PathEntry)
    → HasDistinctNumbers abi
    → abi.number name ≡ some n
    → fresh_in (λ (e : PathEntry). name_index e.name) (name_index name) es ≡ true
    → ¬ Elem n (map (λ (d : PathSyscall). d.sysno) (defined_paths abi es))
unfolding defined_paths fresh_in
fresh-paths abi name n [] d en h m = m
fresh-paths abi name n (x ∷ xs) d en h m =
    go (fresh-paths abi name n xs d en (&&-eq-true _ _ h).1) (abi.number x.name) refl m
  where
    apart : name_index name ≢ name_index x.name
    apart = ground arith

    go :
        ¬ Elem n (map (λ (d : PathSyscall). d.sysno) (defined_paths abi xs))
        → (o : Option ℕ) → abi.number x.name ≡ o
        → Elem n (
            map
              (λ (d : PathSyscall). d.sysno)
              (elim o [
                | none ↦ defined_paths abi xs
                | some k ↦
                    record {
                      sysno = k;
                      slot1 = x.slot1;
                      slot2 = x.slot2;
                      mode = x.mode;
                      flag_slot = x.flag_slot;
                    }
                    ∷ defined_paths abi xs
              ]))
        → ⊥
    go rest none e m = rest m
    go rest (some k) e (inl same) =
        apart (ap name_index (d name x.name n en (e ∙ ap some (sym same))))
    go rest (some k) e (inr m) = rest m

fresh-actions :
    (abi : Abi) (name : Name) (n : ℕ) (es : List ActionEntry)
    → HasDistinctNumbers abi
    → abi.number name ≡ some n
    → fresh_in (λ (e : ActionEntry). name_index e.name) (name_index name) es ≡ true
    → ¬ Elem n (map (λ (a : ActionSyscall). a.sysno) (defined_actions abi es))
unfolding defined_actions fresh_in
fresh-actions abi name n [] d en h m = m
fresh-actions abi name n (x ∷ xs) d en h m = elim (Bool-cases (x.needs_lp64 && not abi.lp64)) [
  | inl s ↦ fresh-actions abi name n xs d en (&&-eq-true _ _ h).1 (rw s at m)
  | inr s ↦
      go (fresh-actions abi name n xs d en (&&-eq-true _ _ h).1) (abi.number x.name) refl
        (rw s at m)
]
  where
    apart : name_index name ≢ name_index x.name
    apart = ground arith

    go :
        ¬ Elem n (map (λ (a : ActionSyscall). a.sysno) (defined_actions abi xs))
        → (o : Option ℕ) → abi.number x.name ≡ o
        → Elem n (
            map
              (λ (a : ActionSyscall). a.sysno)
              (elim o [
                | none ↦ defined_actions abi xs
                | some k ↦ record { sysno = k; action = x.action } ∷ defined_actions abi xs
              ]))
        → ⊥
    go rest none e m = rest m
    go rest (some k) e (inl same) =
        apart (ap name_index (d name x.name n en (e ∙ ap some (sym same))))
    go rest (some k) e (inr m) = rest m

fresh-number :
    (abi : Abi) (a b : Name) (n : ℕ)
    → HasDistinctNumbers abi
    → name_index a ≢ name_index b
    → abi.number a ≡ some n
    → ¬ Elem n (defined_number abi b)
unfolding defined_number
fresh-number abi a b n d apart en m = go (abi.number b) refl m
  where
    go : (o : Option ℕ) → abi.number b ≡ o → Elem n (elim o [ none ↦ [] | some k ↦ k ∷ [] ]) → ⊥
    go none e m = m
    go (some k) e (inl same) = apart (ap name_index (d a b n en (e ∙ ap some (sym same))))
    go (some k) e (inr m) = m

execveat_fresh :
    (fresh_in (λ (e : PathEntry). name_index e.name) (name_index nr_execveat) path_entries ≡ true)
    × (fresh_in (λ (e : ActionEntry). name_index e.name) (name_index nr_execveat) action_entries
        ≡ true)
unfolding fresh_in name_index path_entries action_entries
execveat_fresh = (refl, refl)

-- On a target whose calls have distinct numbers, execveat, whose path the entry handler rewrites, is
-- not among the calls that the seccomp filter stops at.
pub execveat_not_traced :
    (abi : Abi) (n : ℕ)
    → HasDistinctNumbers abi
    → abi.number nr_execveat ≡ some n
    → ¬ Elem n (traced_syscalls abi)
unfolding traced_syscalls path_syscalls action_syscalls name_index
execveat_not_traced abi n d en m = elim (Elem-append n _ _ m) [
  | inl p ↦ fresh-paths abi nr_execveat n path_entries d en execveat_fresh.0 p
  | inr p ↦ elim (Elem-append n _ _ p) [
    | inl q ↦ fresh-actions abi nr_execveat n action_entries d en execveat_fresh.1 q
    | inr q ↦ elim (Elem-append n _ _ q) [
      | inl r ↦ fresh-number abi nr_execveat nr_execve n d (omega arith) en r
      | inr r ↦ elim (Elem-append n _ _ r) [
        | inl s ↦ fresh-number abi nr_execveat nr_bind n d (omega arith) en s
        | inr s ↦ elim (Elem-append n _ _ s) [
          | inl t ↦ fresh-number abi nr_execveat nr_connect n d (omega arith) en t
          | inr t ↦ fresh-number abi nr_execveat nr_sendto n d (omega arith) en t
        ]
      ]
    ]
  ]
]
