-- ===== src/WaitQueue/Queues.antt =====
-- What the wait queues represent: for each port a list of processes. A process waits at one port at
-- most, the one it names, and a process that names none has clear links.
use a9n.Base.{
  ℕ, ◌≡◌, ◌≢◌, ◌⊎◌, refl, sym, ap, subst, ◌∙◌, true, false, Option, none, some, List, [], arith,
  elem, Distinct, ==_refl, ==_false, ==_iff, some_inj, inl, inr, write, Bool-cases,
}
use native.Mathlib.Decide.{ℕ_discrete}
use a9n.Dll.{front, back, Seg, Seg-frame}
use a9n.Kernel.{Ends}
use a9n.WaitQueue.{Pointers}

abbrev pub Waiters : Type 0
Waiters = ℕ → List ℕ

pub record Holds (q : Pointers) (n : ℕ) (xs : List ℕ) : Type 0 where
  pub head : (q.queue n).head ≡ front xs none
  pub tail : (q.queue n).tail ≡ back none xs
  pub links : Seg q.next q.preview none xs none
  pub distinct : Distinct xs
  pub waits : (p : ℕ) → elem p xs ≡ true → q.port p ≡ some n

pub record IsPlaced (q : Pointers) (w : Waiters) (p : ℕ) : Type 0 where
  pub clear : q.port p ≡ none → (q.next p ≡ none) × (q.preview p ≡ none)
  pub listed : (n : ℕ) → q.port p ≡ some n → elem p (w n) ≡ true

pub record Represents (q : Pointers) (w : Waiters) : Type 0 where
  pub queues : (n : ℕ) → Holds q n (w n)
  pub placed : (p : ℕ) → IsPlaced q w p

pub record SamePointers (q q' : Pointers) (p : ℕ) : Type 0 where
  pub next : q'.next p ≡ q.next p
  pub preview : q'.preview p ≡ q.preview p
  pub port : q'.port p ≡ q.port p

pub Holds-frame :
    {q q' : Pointers} {n : ℕ} {xs : List ℕ}
    → Holds q n xs
    → q'.queue n ≡ q.queue n
    → ((p : ℕ) → elem p xs ≡ true → SamePointers q q' p)
    → Holds q' n xs
Holds-frame {q} {q'} {n} {xs} h e same = record {
  head = ap (λ (a : Ends). a.head) e ∙ h.head;
  tail = ap (λ (a : Ends). a.tail) e ∙ h.tail;
  links =
      Seg-frame q'.next q'.preview none none xs h.links (λ p m. (same p m).next)
        (λ p m. (same p m).preview);
  distinct = h.distinct;
  waits = λ p m. (same p m).port ∙ h.waits p m;
}

pub port_cases : (o : Option ℕ) (n : ℕ) → (o ≡ some n) ⊎ (o ≢ some n)
port_cases none n = inr (λ e. absurd (ground arith))
port_cases (some p) n = elim (ℕ_discrete p n) [
  | yes e ↦ inl (ap some e)
  | no ne ↦ inr (λ e. ne (ground arith))
]

-- A process stands in no queue but that of the port it names.
pub not-elem_of_port :
    {q : Pointers} {n : ℕ} {xs : List ℕ} {p : ℕ}
    → Holds q n xs
    → q.port p ≢ some n
    → elem p xs ≡ false
not-elem_of_port {xs} {p} h ne = elim (Bool-cases (elem p xs)) [
  | inl m ↦ absurd (ne (h.waits p m))
  | inr out ↦ out
]

-- What becomes of the processes of one port.
pub record IsReleased (q q' : Pointers) (n p : ℕ) : Type 0 where
  pub port : q'.port p ≡ none
  pub next : q'.next p ≡ none
  pub preview : q'.preview p ≡ none

-- An edit of the queue of port `n`, known by that queue after it and by what it leaves alone.
module _ {q : Pointers} {w : Waiters} (q' : Pointers) (n : ℕ) (xs : List ℕ) (old : Represents q w)
    (holds : Holds q' n xs) (others : (m : ℕ) → n ≢ m → q'.queue m ≡ q.queue m)
    (same : (p : ℕ)
      → q.port p ≢ some n
      → SamePointers q q' p ⊎ ((q.port p ≡ none) × (q'.port p ≡ some n)))
    (left : (p : ℕ) → q.port p ≡ some n → (q'.port p ≡ some n) ⊎ IsReleased q q' n p)
    (listed : (p : ℕ) → q'.port p ≡ some n → elem p xs ≡ true) where
  edit-clear : (p : ℕ) → q'.port p ≡ none → (q'.next p ≡ none) × (q'.preview p ≡ none)
  edit-clear p e = elim (port_cases (q.port p) n) [
    | inr ne ↦ elim (same p ne) [
      | inl s ↦ let c = (old.placed p).clear (sym s.port ∙ e) in (s.next ∙ c.0, s.preview ∙ c.1)
      | inr (was, is) ↦ absurd (ground (arith, e, is))
    ]
    | inl was ↦ elim (left p was) [
      | inl is ↦ absurd (ground (arith, e, is))
      | inr r ↦ (r.next, r.preview)
    ]
  ]

  edit-listed_other : (p m : ℕ) → n ≢ m → q'.port p ≡ some m → elem p (w m) ≡ true
  edit-listed_other p m ne e = elim (port_cases (q.port p) n) [
    | inr other ↦ elim (same p other) [
      | inl s ↦ (old.placed p).listed m (sym s.port ∙ e)
      | inr (was, is) ↦ absurd (ne (some_inj (sym is ∙ e)))
    ]
    | inl was ↦ elim (left p was) [
      | inl is ↦ absurd (ne (some_inj (sym is ∙ e)))
      | inr r ↦ let gone = r.port in absurd (ground (arith, e))
    ]
  ]

  edit-others : (m : ℕ) → n ≢ m → Holds q' m (w m)
  edit-others m ne = Holds-frame (old.queues m) (others m ne) (λ p i.
      let at = (old.queues m).waits p i in
      elim (same p (λ h. ne (some_inj (sym h ∙ at)))) [
        | inl s ↦ s
        | inr (was, is) ↦ absurd (ground (arith, at, was))
      ])

  pub edit-Represents : Represents q' (write w n xs)
  edit-Represents = record {
    queues = λ m. elim (ℕ_discrete n m) [
      | yes e ↦ subst (λ (k : ℕ). Holds q' k (write w n xs k)) e (rw ==_refl holds)
      | no ne ↦ rw (==_false n m ne) (edit-others m ne)
    ];
    placed = λ p. record {
      clear = edit-clear p;
      listed = λ m e. elim (ℕ_discrete n m) [
        | yes same' ↦ rw ((==_iff n m).1 same') (listed p (e ∙ ap some (sym same')))
        | no ne ↦ rw (==_false n m ne) (edit-listed_other p m ne e)
      ];
    };
  }

-- The queues as constructed.
abbrev pub no_waiters : Pointers
no_waiters = record {
  next = λ _. none;
  preview = λ _. none;
  port = λ _. none;
  queue = λ _. record { head = none; tail = none };
}

pub no_waiters-Represents : Represents no_waiters (λ _. [])
no_waiters-Represents = record {
  queues = λ n. record {
    head = refl;
    tail = refl;
    links = tt;
    distinct = tt;
    waits = λ p m. absurd (ground arith);
  };
  placed = λ p. record { clear = λ e. (refl, refl); listed = λ n e. absurd (ground arith) };
}
