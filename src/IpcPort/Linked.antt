-- ===== src/IpcPort/Linked.antt =====
-- kernel/capability/ipc_port.cpp: the reply relation between callers and servers, as the operations
-- change it.
use a9n.Base.{
  ℕ, ◌≡◌, ◌≢◌, ◌⊎◌, inl, inr, Option, refl, sym, ap, subst, ◌∙◌, none, some, write, write-eq,
  write-ne, arith,
}
use a9n.Base.Result.{Result, ok, err}
use native.Mathlib.Decide.{ℕ_discrete}
use a9n.IpcPort.Quiet.{Relation, relation, Quiet}
use a9n.Kernel.{Kernel, M, bind, ◌>>=◌, ◌>>◌, modify}
use a9n.WaitQueue.{push}
use a9n.WaitQueue.Push.{enqueue, push-port, push-Represents}
use a9n.WaitQueue.Queues.{Waiters, Represents}

-- The queues are in order; the process that a server owes a reply waits for that server; and a process
-- that waits at a port has no server yet.
pub record Linked (v : Relation) : Type 0 where
  pub waiters : Waiters
  pub represents : Represents (v.queues) waiters
  pub answers : (s c : ℕ) → v.client s ≡ some c → v.server c ≡ some s
  pub waits : (p : ℕ) → v.queues.port p ≢ none → v.server p ≡ none

abbrev pub InOrder : Kernel → Type 0
InOrder k = Linked (relation k)

-- A process that runs: it waits at no port and for no reply.
pub record Free (v : Relation) (p : ℕ) : Type 0 where
  pub server : v.server p ≡ none
  pub port : v.queues.port p ≡ none

pub record Idle (owner : ℕ) (v : Relation) : Type 0 where
  pub linked : Linked v
  pub free : Free v owner

module _ (v : Relation) (old : Linked v) where
  -- `s` accepts the call of `c`.
  pub link-Linked :
      (s c : ℕ)
      → Free v c
      → Linked (record v { server = write v.server c (some s); client = write v.client s (some c) })
  link-Linked s c free = record {
    waiters = old.waiters;
    represents = old.represents;
    answers = λ s' c' e. elim (ℕ_discrete s s') [
      | yes same ↦
          let held = sym (write-eq v.client s (some c) same) ∙ e in
          let mine : c ≡ c' = ground (arith, held) in
          write-eq v.server c (some s) mine ∙ ap some same
      | no ne ↦
          let there = old.answers s' c' (sym (write-ne v.client s (some c) ne) ∙ e) in
          elim (ℕ_discrete c c') [
            | yes same ↦
                let clear = sym (ap v.server same) ∙ free.server in
                absurd (ground (arith, clear, there))
            | no other ↦ write-ne v.server c (some s) other ∙ there
          ]
    ];
    waits = λ p h. elim (ℕ_discrete c p) [
      | yes same ↦ absurd (h (sym (ap v.queues.port same) ∙ free.port))
      | no ne ↦ write-ne v.server c (some s) ne ∙ old.waits p h
    ];
  }

  -- `s` owes nobody a reply.
  pub forget-Linked : (s : ℕ) → Linked (record v { client = write v.client s none })
  forget-Linked s = record {
    waiters = old.waiters;
    represents = old.represents;
    answers = λ s' c e. elim (ℕ_discrete s s') [
      | yes same ↦
          let clear = sym (write-eq v.client s none same) ∙ e in absurd (ground (arith, clear))
      | no ne ↦ old.answers s' c (sym (write-ne v.client s none ne) ∙ e)
    ];
    waits = old.waits;
  }

  -- `c` waits for no reply, where no server owes it one.
  pub unserved-Linked :
      (c : ℕ)
      → ((s : ℕ) → v.client s ≢ some c)
      → Linked (record v { server = write v.server c none })
  unserved-Linked c nobody = record {
    waiters = old.waiters;
    represents = old.represents;
    answers = λ s c' e. elim (ℕ_discrete c c') [
      | yes same ↦ absurd (nobody s (e ∙ ap some (sym same)))
      | no ne ↦ write-ne v.server c none ne ∙ old.answers s c' e
    ];
    waits = λ p h. elim (ℕ_discrete c p) [
      | yes same ↦ write-eq v.server c none same
      | no ne ↦ write-ne v.server c none ne ∙ old.waits p h
    ];
  }

  -- At most one server owes a process a reply.
  pub one_server : (s s' c : ℕ) → v.client s ≡ some c → v.client s' ≡ some c → s ≡ s'
  one_server s s' c e e' =
      let both = sym (old.answers s c e) ∙ old.answers s' c e' in ground (arith, both)

  pub enter-Linked : (n p : ℕ) → Free v p → Linked (record v { queues = push v.queues n p })
  enter-Linked n p free = record {
    waiters = enqueue old.waiters n p;
    represents = push-Represents v.queues old.waiters n p old.represents free.port;
    answers = old.answers;
    waits = λ x h. elim (ℕ_discrete p x) [
      | yes same ↦ sym (ap v.server same) ∙ free.server
      | no ne ↦
          old.waits x (λ e. h (push-port v.queues n p x ∙ write-ne v.queues.port p (some n) ne ∙ e))
    ];
  }

-- The reply of `s` to `c` ends the call.
pub cut-Linked :
    (v : Relation) (s c : ℕ)
    → Linked v
    → v.client s ≡ some c
    → Linked (record v { server = write v.server c none; client = write v.client s none })
cut-Linked v s c old held =
    unserved-Linked (record v { client = write v.client s none }) (forget-Linked v old s) c
      (λ s' e. elim (ℕ_discrete s s') [
        | yes same ↦
            let clear = sym (write-eq v.client s none same) ∙ e in absurd (ground (arith, clear))
        | no ne ↦ ne (one_server v old s s' c held (sym (write-ne v.client s none ne) ∙ e))
      ])

-- Processes that leave their queues.
pub fewer-Linked :
    (v v' : Relation) (w : Waiters)
    → Linked v
    → Represents (v'.queues) w
    → v'.server ≡ v.server
    → v'.client ≡ v.client
    → ((p : ℕ) → (v'.queues.port p ≡ v.queues.port p) ⊎ (v'.queues.port p ≡ none))
    → Linked v'
fewer-Linked v v' w old r server client leaves = record {
  waiters = w;
  represents = r;
  answers = λ s c e.
      ap (λ (f : ℕ → Option ℕ). f c) server
      ∙ old.answers s c (sym (ap (λ (f : ℕ → Option ℕ). f s) client) ∙ e);
  waits = λ p h.
      ap (λ (f : ℕ → Option ℕ). f p) server
      ∙ old.waits p (λ e. elim (leaves p) [ inl e' ↦ h (e' ∙ e) | inr e' ↦ h e' ]);
}

-- An operation that leads from one predicate of the relation to another, on success and on failure.
pub record Leads (P Q : Relation → Type 0) {E A : Type 0} (m : M E A) : Type 0 where
  pub lead : (k : Kernel) → P (relation k) → Q (relation (m k).1)

module _ {R Q : Relation → Type 0} {E A B : Type 0} where
  bind_lead :
      (out : Result A E × Kernel) (f : A → M E B)
      → R (relation out.1)
      → ((v : Relation) → R v → Q v)
      → ((a : A) → Leads R Q (f a))
      → Q (relation (bind out f).1)
  bind_lead (ok a, k) f h weaker kf = (kf a).lead k h
  bind_lead (err e, k) f h weaker kf = weaker (relation k) h

module _ {P : Relation → Type 0} where
  pub Quiet-Leads : {E A : Type 0} {m : M E A} → Quiet m → Leads P P m
  Quiet-Leads km = record { lead = λ k h. subst P (sym ((km.keep (relation k)).hold k refl)) h }

  module _ {R Q : Relation → Type 0} {E A B : Type 0} where
    pub >>=-Leads :
        {m : M E A} {f : A → M E B}
        → Leads P R m
        → ((v : Relation) → R v → Q v)
        → ((a : A) → Leads R Q (f a))
        → Leads P Q (m >>= f)
    >>=-Leads {m} {f} km weaker kf = record {
      lead = λ k h. bind_lead (m k) f (km.lead k h) weaker kf;
    }

    pub >>-Leads :
        {m : M E A} {n : M E B}
        → Leads P R m
        → ((v : Relation) → R v → Q v)
        → Leads R Q n
        → Leads P Q (m >> n)
    >>-Leads {m} {n} km weaker kn = record {
      lead = λ k h. bind_lead (m k) (λ _. n) (km.lead k h) weaker (λ _. kn);
    }

pub modify-Leads :
    {P Q : Relation → Type 0} {E : Type 0} (g : Kernel → Kernel)
    → ((k : Kernel) → P (relation k) → Q (relation (g k)))
    → Leads P Q {E = E} (modify g)
modify-Leads g step = record { lead = step }
