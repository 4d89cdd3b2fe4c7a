-- ===== src/Store/Sqlite/Leads.antt =====
-- sqlite.go: from tables that satisfy P, a method that succeeds leads to tables and a value that
-- satisfy Q; and a transaction that fails leaves no trace.
use topo.Prelude.{
  ◌+◌, true, false, if◌then◌else◌, ℕ, ◌≡◌, refl, Bool, Option, none, some, inl, inr, Bool-cases,
  Option-cases, arith,
}
use topo.Prelude.Actions.{Action, return, lift, ◌>>=◌, ◌>>◌, continue, OnSome}
use topo.Store.Sqlite.Rows.{Tables}
use topo.Store.Sqlite.Database.{
  Connection, exec, exec_affecting, query, in_transaction, rolled_back,
}

pub record Leads {Col A : Type 0} (P : Tables Col → Type 0) (m : Action (Connection Col) A)
    (Q : A → Tables Col → Type 0) : Type 0 where
  pub at : (c : Connection Col) → P c.tables → OnSome (λ a. Q a (m c).0.tables) (m c).1

-- A method that fails leaves the tables as they were.
pub record IsAtomic {Col A : Type 0} (m : Action (Connection Col) A) : Type 0 where
  pub at : (c : Connection Col) → (m c).1 ≡ none → (m c).0.tables ≡ c.tables

continue-OnSome :
    {Col A B : Type 0} (Q : A → Tables Col → Type 0) (R : B → Tables Col → Type 0)
    (k : A → Action (Connection Col) B) (c : Connection Col) (o : Option A)
    → OnSome (λ a. Q a c.tables) o
    → ((a : A) → Leads (Q a) (k a) R)
    → OnSome (λ b. R b (continue c o k).0.tables) (continue c o k).1
continue-OnSome Q R k c none q f = tt
continue-OnSome Q R k c (some a) q f = (f a).at c q

module _ {Col A : Type 0} {P : Tables Col → Type 0} (Q : A → Tables Col → Type 0) where
  pub Leads-return : (a : A) → ((t : Tables Col) → P t → Q a t) → Leads P (return a) Q
  unfolding return
  Leads-return a f = record { at = λ c h. f c.tables h }

  pub Leads-lift :
      (o : Option A) → ((a : A) → o ≡ some a → (t : Tables Col) → P t → Q a t) → Leads P (lift o) Q
  unfolding lift
  Leads-lift none f = record { at = λ c h. tt }
  Leads-lift (some a) f = record { at = λ c h. f a refl c.tables h }

  pub Leads-bind :
      {B : Type 0} (m : Action (Connection Col) A) (k : A → Action (Connection Col) B)
      (R : B → Tables Col → Type 0)
      → Leads P m Q
      → ((a : A) → Leads (Q a) (k a) R)
      → Leads P (m >>= k) R
  unfolding ◌>>=◌
  Leads-bind m k R l f = record { at = λ c h. continue-OnSome Q R k (m c).0 (m c).1 (l.at c h) f }

module _ {Col : Type 0} {P : Tables Col → Type 0} (driver : ℕ → Bool) where
  pub Leads-query :
      {A : Type 0} (read : Tables Col → A) (Q : A → Tables Col → Type 0)
      → ((t : Tables Col) → P t → Q (read t) t)
      → Leads P (query driver read) Q
  unfolding query
  Leads-query read Q f = record {
    at = λ c h. elim (Bool-cases (driver c.statements)) [
      | inl e ↦ rw (e, query) (f c.tables h)
      | inr e ↦ rw (e, query) tt
    ];
  }

  exec-OnSome :
      (change : Tables Col → Option (Tables Col)) (Q : Tables Col → Type 0)
      → ((t : Tables Col) → P t → OnSome Q (change t))
      → (c : Connection Col) → P c.tables
      → OnSome (λ _. Q (exec driver change c).0.tables) (exec driver change c).1
  unfolding exec
  exec-OnSome change Q f c h = elim (Bool-cases (driver c.statements)) [
    | inr e ↦ rw (e, exec) tt
    | inl e ↦ elim (Option-cases (change c.tables)) [
      | inl broken ↦ rw (e, broken, exec) tt
      | inr (t, s) ↦ rw (e, s, exec) (rw s at (f c.tables h))
    ]
  ]

  pub Leads-exec :
      (change : Tables Col → Option (Tables Col)) (Q : Tables Col → Type 0)
      → ((t : Tables Col) → P t → OnSome Q (change t))
      → Leads P (exec driver change) (λ _ t. Q t)
  Leads-exec change Q f = record { at = exec-OnSome change Q f }

  pub Leads-exec_affecting :
      (change : Tables Col → Tables Col × Bool) (Q : Bool → Tables Col → Type 0)
      → ((t : Tables Col) → P t → Q (change t).1 (change t).0)
      → Leads P (exec_affecting driver change) Q
  unfolding exec_affecting
  Leads-exec_affecting change Q f = record {
    at = λ c h. elim (Bool-cases (driver c.statements)) [
      | inl e ↦ rw (e, exec_affecting) (f c.tables h)
      | inr e ↦ rw (e, exec_affecting) tt
    ];
  }

module _ {Col A : Type 0} (driver : ℕ → Bool) (Q : A → Tables Col → Type 0) where
  rolled_back-OnSome :
      (before : Tables Col) (r : Connection Col × Option A)
      → OnSome (λ a. Q a r.0.tables) r.1
      → OnSome (λ a. Q a (rolled_back driver before r).0.tables) (rolled_back driver before r).1
  rolled_back-OnSome before (c, none) h = tt
  rolled_back-OnSome before (c, some a) h = h

  pub Leads-in_transaction :
      {P : Tables Col → Type 0} (body : Action (Connection Col) A)
      → Leads P body Q
      → Leads P (in_transaction driver body) Q
  unfolding in_transaction
  Leads-in_transaction {P} body l =
      let commit : Leads P
          (exec driver (λ t. some t) >> (body >>= λ a. exec driver (λ t. some t) >> return a)) Q =
        Leads-bind (λ _. P) _ _ Q (Leads-exec driver _ P (λ t h. h))
          (λ _. Leads-bind Q body _ Q l (λ a.
            Leads-bind (λ _. Q a) _ _ Q (Leads-exec driver _ (Q a) (λ t h. h))
              (λ _. Leads-return Q a (λ t h. h)))) in
      record { at = λ c h. rolled_back-OnSome c.tables _ (commit.at c h) }

module _ {Col A : Type 0} (driver : ℕ → Bool) where
  rolled_back-tables :
      (before : Tables Col) (r : Connection Col × Option A)
      → (rolled_back driver before r).1 ≡ none
      → (rolled_back driver before r).0.tables ≡ before
  rolled_back-tables before (c, none) h = refl
  rolled_back-tables before (c, some a) h = cc

  pub in_transaction-IsAtomic :
      (body : Action (Connection Col) A) → IsAtomic (in_transaction driver body)
  unfolding in_transaction
  in_transaction-IsAtomic body = record { at = λ c h. rolled_back-tables c.tables _ h }

module _ {Col : Type 0} (driver : ℕ → Bool) where
  pub exec-IsAtomic : (change : Tables Col → Option (Tables Col)) → IsAtomic (exec driver change)
  unfolding exec
  exec-IsAtomic change = record {
    at = λ c h. elim (Bool-cases (driver c.statements)) [
      | inr e ↦ rw (e, exec) refl
      | inl e ↦ elim (Option-cases (change c.tables)) [
        | inl broken ↦ rw (e, broken, exec) refl
        | inr (t, s) ↦ let done = rw (e, s, exec) at h in cc
      ]
    ];
  }

  pub exec_affecting-IsAtomic :
      (change : Tables Col → Tables Col × Bool) → IsAtomic (exec_affecting driver change)
  unfolding exec_affecting
  exec_affecting-IsAtomic change = record { at = λ c h. ground arith }

  pub query-IsAtomic : {A : Type 0} (read : Tables Col → A) → IsAtomic (query driver read)
  unfolding query
  query-IsAtomic read = record { at = λ c h. ground arith }

-- A value is computed before the transaction begins.
pub lift-bind-IsAtomic :
    {Col A B : Type 0} (o : Option A) (k : A → Action (Connection Col) B)
    → ((a : A) → IsAtomic (k a))
    → IsAtomic (lift o >>= k)
unfolding ◌>>=◌ lift
lift-bind-IsAtomic none k f = record { at = λ c h. refl }
lift-bind-IsAtomic (some a) k f = record { at = λ c h. (f a).at c h }

-- A fact that does not depend on the tables.
pub Leads-given :
    {Col A F : Type 0} {P : Tables Col → Type 0} {m : Action (Connection Col) A}
    {Q : A → Tables Col → Type 0}
    → (F → Leads P m Q)
    → Leads (λ t. F × P t) m Q
Leads-given f = record { at = λ c h. (f h.0).at c h.1 }

-- Less may be asked of the tables than is known.
pub Leads-from :
    {Col A : Type 0} {P : Tables Col → Type 0} (R : Tables Col → Type 0)
    {m : Action (Connection Col) A} {Q : A → Tables Col → Type 0}
    → ((t : Tables Col) → P t → R t)
    → Leads R m Q
    → Leads P m Q
Leads-from R f l = record { at = λ c h. l.at c (f c.tables h) }

pub Leads-if :
    {Col A : Type 0} {P : Tables Col → Type 0} (b : Bool) (m n : Action (Connection Col) A)
    (Q : A → Tables Col → Type 0)
    → (b ≡ true → Leads P m Q)
    → (b ≡ false → Leads P n Q)
    → Leads P (if b then m else n) Q
Leads-if true m n Q f g = f refl
Leads-if false m n Q f g = g refl

pub query-bind-IsAtomic :
    {Col A B : Type 0} (driver : ℕ → Bool) (read : Tables Col → A)
    (k : A → Action (Connection Col) B)
    → ((a : A) → IsAtomic (k a))
    → IsAtomic (query driver read >>= k)
unfolding ◌>>=◌ query
query-bind-IsAtomic driver read k f = record {
  at = λ c h. elim (Bool-cases (driver c.statements)) [
    | inl e ↦
        rw (e, query, ◌>>=◌)
          ((f (read c.tables)).at (record c { statements = c.statements + 1 })
            (rw (e, query, ◌>>=◌) at h))
    | inr e ↦ rw (e, query, ◌>>=◌) refl
  ];
}

pub IsAtomic-if :
    {Col A : Type 0} (b : Bool) (m n : Action (Connection Col) A)
    → IsAtomic m
    → IsAtomic n
    → IsAtomic (if b then m else n)
IsAtomic-if true m n f g = f
IsAtomic-if false m n f g = g
