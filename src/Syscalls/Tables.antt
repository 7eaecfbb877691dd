-- ===== src/Syscalls/Tables.antt =====
-- src/syscalls.c and src/ptrace.c: what the tables say of each call, and which calls stop a guest.
use emuroot.Base.{
  ℕ, suc, ◌+◌, ◌≤◌, ◌≡◌, refl, sym, ◌∙◌, ap, ◌≢◌, ◌⊎◌, inl, inr, Bool, true, false, not, ◌&&◌, some,
  List, [], ◌∷◌, ◌==◌, length, map, arith, Bool-cases, Option-cases, length-append, &&-eq-true,
  ==_refl, ==_iff, ==_refl, ==_iff,
}
use emuroot.Syscalls.Index.{name_index}
use emuroot.Syscalls.{
  Name, Abi, PathEntry, ActionEntry, PathSyscall, ActionSyscall, path_entries, action_entries,
  defined_paths, defined_actions, path_syscalls, action_syscalls, first_action, first_path,
  emuroot_action_of, emuroot_find_path_syscall, traced_syscalls, defined_number, nr_execve, nr_bind,
  nr_connect, nr_sendto,
}

-- Two macros that <sys/syscall.h> defines have two numbers: each call has its own.
abbrev pub HasDistinctNumbers : Abi → Type 0
HasDistinctNumbers abi =
    (a b : Name) (n : ℕ) → abi.number a ≡ some n → abi.number b ≡ some n → a ≡ b

-- `f` of no later element is k.
unfoldable pub fresh_in : {A : Type 0} → (A → ℕ) → ℕ → List A → Bool
fresh_in f k [] = true
fresh_in f k (x ∷ xs) = not (f x == k) && fresh_in f k xs

distinct_by : {A : Type 0} → (A → ℕ) → List A → Bool
distinct_by f [] = true
distinct_by f (x ∷ xs) = fresh_in f (f x) xs && distinct_by f xs

-- `x` is an element.
abbrev pub Elem : {A : Type 0} → A → List A → Type 0
Elem x [] = ⊥
Elem x (y ∷ ys) = (x ≡ y) ⊎ Elem x ys

action_names_distinct : distinct_by (λ (e : ActionEntry). name_index e.name) action_entries ≡ true
unfolding distinct_by fresh_in name_index action_entries
action_names_distinct = refl

path_names_distinct : distinct_by (λ (e : PathEntry). name_index e.name) path_entries ≡ true
unfolding distinct_by fresh_in name_index path_entries
path_names_distinct = refl

pub fresh_in-Elem :
    {A : Type 0} (f : A → ℕ) (k : ℕ) (x : A) (xs : List A)
    → fresh_in f k xs ≡ true
    → Elem x xs
    → f x ≢ k
unfolding fresh_in
fresh_in-Elem f k x [] h m = absurd m
fresh_in-Elem f k x (y ∷ ys) h (inl e) = rw e (ground arith)
fresh_in-Elem f k x (y ∷ ys) h (inr m) = fresh_in-Elem f k x ys (&&-eq-true _ _ h).1 m

-- Two entries whose macros differ do not share a number.
pub numbers_apart :
    (abi : Abi) (a b : Name) (n m : ℕ)
    → HasDistinctNumbers abi
    → name_index a ≢ name_index b
    → abi.number a ≡ some n
    → abi.number b ≡ some m
    → (m == n) ≡ false
numbers_apart abi a b n m d apart ea eb = elim (Bool-cases (m == n)) [
  | inr e ↦ e
  | inl e ↦
      let same : m ≡ n = (==_iff m n).0 e in
      absurd (apart (ap name_index (d a b n ea (eb ∙ ap some same))))
]

first_action-Elem :
    (abi : Abi) (es : List ActionEntry) (e : ActionEntry) (n : ℕ)
    → HasDistinctNumbers abi
    → distinct_by (λ (e : ActionEntry). name_index e.name) es ≡ true
    → Elem e es
    → abi.number e.name ≡ some n
    → (e.needs_lp64 && not abi.lp64) ≡ false
    → first_action (defined_actions abi es) n ≡ some e.action
unfolding first_action defined_actions distinct_by
first_action-Elem abi [] e n d u m en k = absurd m
first_action-Elem abi (x ∷ xs) e n d u (inl p) en k =
    let kx : (x.needs_lp64 && not abi.lp64) ≡ false = rw p at k in
    let ex : abi.number x.name ≡ some n = rw p at en in
    rw (kx, ex, ==_refl n) (ap (λ (e : ActionEntry). some e.action) (sym p))
first_action-Elem abi (x ∷ xs) e n d u (inr m) en k =
    let (fresh, rest) = &&-eq-true _ _ u in
    let apart =
      fresh_in-Elem (λ (e : ActionEntry). name_index e.name) (name_index x.name) e xs fresh m in
    let later = first_action-Elem abi xs e n d rest m en k in
    elim (Bool-cases (x.needs_lp64 && not abi.lp64)) [
      | inl s ↦ rw s later
      | inr s ↦ elim (Option-cases (abi.number x.name)) [
        | inl none_ ↦ rw (s, none_) later
        | inr (m', em) ↦ rw (s, em, numbers_apart abi e.name x.name n m' d apart en em) later
      ]
    ]

first_path-Elem :
    (abi : Abi) (es : List PathEntry) (e : PathEntry) (n : ℕ)
    → HasDistinctNumbers abi
    → distinct_by (λ (e : PathEntry). name_index e.name) es ≡ true
    → Elem e es
    → abi.number e.name ≡ some n
    → first_path (defined_paths abi es) n
      ≡ some (record {
        sysno = n;
        slot1 = e.slot1;
        slot2 = e.slot2;
        mode = e.mode;
        flag_slot = e.flag_slot;
      })
unfolding first_path defined_paths distinct_by
first_path-Elem abi [] e n d u m en = absurd m
first_path-Elem abi (x ∷ xs) e n d u (inl p) en =
    let ex : abi.number x.name ≡ some n = rw p at en in
    rw p (rw (ex, defined_paths, first_path) (rw (==_refl n)))
first_path-Elem abi (x ∷ xs) e n d u (inr m) en =
    let (fresh, rest) = &&-eq-true _ _ u in
    let apart =
      fresh_in-Elem (λ (e : PathEntry). name_index e.name) (name_index x.name) e xs fresh m in
    let later = first_path-Elem abi xs e n d rest m en in
    elim (Option-cases (abi.number x.name)) [
      | inl none_ ↦ rw (none_, defined_paths, first_path) later
      | inr (m', em) ↦
          rw (em, defined_paths, first_path)
            (rw (numbers_apart abi e.name x.name n m' d apart en em) later)
    ]

-- On a target whose calls have distinct numbers, no entry of the action table hides another: the
-- number of each entry that the preprocessor leaves is looked up to that entry's own action.
pub action_of-entry :
    (abi : Abi) (e : ActionEntry) (n : ℕ)
    → HasDistinctNumbers abi
    → Elem e action_entries
    → abi.number e.name ≡ some n
    → (e.needs_lp64 && not abi.lp64) ≡ false
    → emuroot_action_of abi n ≡ some e.action
unfolding emuroot_action_of action_syscalls
action_of-entry abi e n d m en k =
    first_action-Elem abi action_entries e n d action_names_distinct m en k

-- On a target whose calls have distinct numbers, no entry of the path table hides another: the
-- number of each entry whose macro is defined is looked up to that entry's own slots and modes.
pub find_path-entry :
    (abi : Abi) (e : PathEntry) (n : ℕ)
    → HasDistinctNumbers abi
    → Elem e path_entries
    → abi.number e.name ≡ some n
    → emuroot_find_path_syscall abi n
      ≡ some (record {
        sysno = n;
        slot1 = e.slot1;
        slot2 = e.slot2;
        mode = e.mode;
        flag_slot = e.flag_slot;
      })
unfolding emuroot_find_path_syscall path_syscalls
find_path-entry abi e n d m en = first_path-Elem abi path_entries e n d path_names_distinct m en

length-defined_paths : (abi : Abi) (es : List PathEntry) → length (defined_paths abi es) ≤ length es
unfolding defined_paths
length-defined_paths abi [] = omega arith
length-defined_paths abi (e ∷ es) = ground (arith, length-defined_paths abi es)

length-defined_actions :
    (abi : Abi) (es : List ActionEntry) → length (defined_actions abi es) ≤ length es
unfolding defined_actions
length-defined_actions abi [] = omega arith
length-defined_actions abi (e ∷ es) = ground (arith, length-defined_actions abi es)

length-map {ℓ κ} :
    {A : Type ℓ} {B : Type κ} (f : A → B) (xs : List A) → length (map f xs) ≡ length xs
length-map f [] = refl
length-map f (x ∷ xs) = ap suc (length-map f xs)

length-defined_number : (abi : Abi) (name : Name) → length (defined_number abi name) ≤ 1
unfolding defined_number
length-defined_number abi name = ground arith

entries_length : (length path_entries ≡ 57) × (length action_entries ≡ 57)
unfolding path_entries action_entries
entries_length = (refl, refl)

traced_length :
    (abi : Abi)
    → length (traced_syscalls abi)
      ≡ length (map (λ (d : PathSyscall). d.sysno) (path_syscalls abi))
        + (length (map (λ (a : ActionSyscall). a.sysno) (action_syscalls abi))
            + (length (defined_number abi nr_execve)
                + (length (defined_number abi nr_bind)
                    + (length (defined_number abi nr_connect)
                        + length (defined_number abi nr_sendto)))))
unfolding traced_syscalls
traced_length abi = rw (length-append, length-append, length-append, length-append, length-append)

-- Whatever calls the target has, there are at most 118 numbers to trace: they fit the array of 512
-- that they are collected in, and the 250 that the filter's one-byte jumps can reach.
pub length-traced_syscalls : (abi : Abi) → length (traced_syscalls abi) ≤ 118
unfolding path_syscalls action_syscalls
length-traced_syscalls abi = omega (
  arith,
  length-defined_paths abi path_entries,
  length-defined_actions abi action_entries,
  length-map (λ (d : PathSyscall). d.sysno) (path_syscalls abi),
  length-map (λ (a : ActionSyscall). a.sysno) (action_syscalls abi),
  length-defined_number abi nr_execve,
  length-defined_number abi nr_bind,
  length-defined_number abi nr_connect,
  length-defined_number abi nr_sendto,
  traced_length abi,
  entries_length,
)
