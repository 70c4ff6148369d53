-- ===== src/Mailbox/Storage/Locks.antt =====
-- `get_lock` of storage_manager.py when threads call it at the same time: the test, the making of
-- the lock and the return are steps of their own, since no lock guards `self.locks`.
use rdt_mail_service.Prelude.{
  ℕ, zero, suc, ◌≡◌, ◌≢◌, refl, sym, ◌∙◌, inl, inr, Bool, true, false, List, [], ◌∷◌, some, Dict,
  lookup, contains, insert, lookup-insert, contains-lookup, set, get_elem?, Bool-cases, ◌==◌,
  nat_eq, beq_refl,
}
use rdt_mail_service.Prelude.Text.{Text, text_eq}

-- Where a thread is in `get_lock`, with the name in lower case, or which lock it was given.
pub data Place : Type 0 where
  testing making reading : Text → Place
  given : Text → ℕ → Place

pub record Threads : Type 0 where
  pub locks : Dict Text ℕ
  -- the number of the next new lock
  pub next_lock : ℕ
  pub places : List Place

abbrev pub tested : Bool → Text → Place
tested true name = Place.reading name
tested false name = Place.making name

pub data Step (s t : Threads) : Type 0 where
  test :
      (i : ℕ) (name : Text)
      → get_elem? s.places i ≡ some (Place.testing name)
      → t ≡ record s { places = set s.places i (tested (contains name s.locks) name) }
      → Step s t
  make :
      (i : ℕ) (name : Text)
      → get_elem? s.places i ≡ some (Place.making name)
      → t ≡ record s {
        locks = insert name s.next_lock s.locks;
        next_lock = suc s.next_lock;
        places = set s.places i (Place.reading name);
      }
      → Step s t
  read :
      (i : ℕ) (name : Text) (lock : ℕ)
      → get_elem? s.places i ≡ some (Place.reading name)
      → lookup name s.locks ≡ some lock
      → t ≡ record s { places = set s.places i (Place.given name lock) }
      → Step s t

pub data Reach (s : Threads) : Threads → Type 0 where
  here : Reach s s
  next : {t u : Threads} → Reach s t → Step t u → Reach s u

-- Nothing at the place speaks against one lock for the name.
abbrev pub Agrees : Text → ℕ → Place → Type 0
Agrees name lock (testing n) = Unit
Agrees name lock (making n) = n ≢ name
Agrees name lock (reading n) = Unit
Agrees name lock (given n l) = n ≡ name → l ≡ lock

pub record OneLock (name : Text) (lock : ℕ) (s : Threads) : Type 0 where
  pub entered : lookup name s.locks ≡ some lock
  pub agreed : (i : ℕ) (p : Place) → get_elem? s.places i ≡ some p → Agrees name lock p

-- A step of thread `i` to a place that agrees.
agreed-set :
    (name : Text) (lock : ℕ) (places : List Place) (i : ℕ) (q : Place)
    → Agrees name lock q
    → ((j : ℕ) (p : Place) → get_elem? places j ≡ some p → Agrees name lock p)
    → (j : ℕ) (p : Place) → get_elem? (set places i q) j ≡ some p
    → Agrees name lock p
agreed-set name lock [] i q a h j p e = cc
agreed-set name lock (x ∷ xs) zero q a h zero p e = let same : q ≡ p = cc in rw (sym same) a
agreed-set name lock (x ∷ xs) zero q a h (suc j) p e = h (suc j) p e
agreed-set name lock (x ∷ xs) (suc i) q a h zero p e = h zero p e
agreed-set name lock (x ∷ xs) (suc i) q a h (suc j) p e =
    agreed-set name lock xs i q a (λ k r g. h (suc k) r g) j p e

tested-Agrees :
    (name n : Text) (lock : ℕ) (locks : Dict Text ℕ)
    → lookup name locks ≡ some lock
    → Agrees name lock (tested (contains n locks) n)
tested-Agrees name n lock locks h = elim (Bool-cases (contains n locks)) [
  | inl y ↦ rw y tt
  | inr f ↦ rw f (λ (q : n ≡ name).
      let there : contains name locks ≡ true = contains-lookup name locks ∙ rw h refl in
      cc (rw q at f))
]

made_elsewhere :
    (name n : Text) (lock l : ℕ) (locks : Dict Text ℕ)
    → n ≢ name
    → lookup name locks ≡ some lock
    → lookup name (insert n l locks) ≡ some lock
made_elsewhere name n lock l locks d h =
    rw (lookup-insert n name l locks) (elim (Bool-cases (n == name)) [
      | inl y ↦ absurd (d ((text_eq.beq_iff n name).0 y))
      | inr f ↦ rw f h
    ])

read_same :
    (name n : Text) (lock l : ℕ) (locks : Dict Text ℕ)
    → lookup name locks ≡ some lock
    → lookup n locks ≡ some l
    → n ≡ name
    → l ≡ lock
read_same name n lock l locks h e q = let again : lookup name locks ≡ some l = rw (sym q) e in cc

Step-OneLock :
    (name : Text) (lock : ℕ) (s t : Threads) → OneLock name lock s → Step s t → OneLock name lock t
Step-OneLock name lock s t o (test i n e m) = rw m (record {
  entered = o.entered;
  agreed =
      agreed-set name lock s.places i (tested (contains n s.locks) n)
        (tested-Agrees name n lock s.locks o.entered) o.agreed;
})
Step-OneLock name lock s t o (make i n e m) =
    let differs : n ≢ name = o.agreed i (Place.making n) e in
    rw m (record {
      entered = made_elsewhere name n lock s.next_lock s.locks differs o.entered;
      agreed = agreed-set name lock s.places i (Place.reading n) tt o.agreed;
    })
Step-OneLock name lock s t o (read i n l e f m) = rw m (record {
  entered = o.entered;
  agreed =
      agreed-set name lock s.places i (Place.given n l)
        (λ (q : n ≡ name). read_same name n lock l s.locks o.entered f q) o.agreed;
})

abbrev AllTesting : List Place → Type 0
AllTesting [] = Unit
AllTesting (testing n ∷ places) = AllTesting places
AllTesting (making n ∷ places) = ⊥
AllTesting (reading n ∷ places) = ⊥
AllTesting (given n l ∷ places) = ⊥

testing-Agrees :
    (name : Text) (lock : ℕ) (places : List Place)
    → AllTesting places
    → (i : ℕ) (p : Place) → get_elem? places i ≡ some p
    → Agrees name lock p
testing-Agrees name lock [] a i p e = cc
testing-Agrees name lock (testing n ∷ places) a zero p e =
    let same : Place.testing n ≡ p = cc in rw (sym same) tt
testing-Agrees name lock (testing n ∷ places) a (suc i) p e =
    testing-Agrees name lock places a i p e
testing-Agrees name lock (making _ ∷ places) a i p e = elim a [ ]
testing-Agrees name lock (reading _ ∷ places) a i p e = elim a [ ]
testing-Agrees name lock (given _ _ ∷ places) a i p e = elim a [ ]

Reach-OneLock :
    (name : Text) (lock : ℕ) (s t : Threads) → OneLock name lock s → Reach s t → OneLock name lock t
Reach-OneLock name lock s t o here = o
Reach-OneLock name lock s t o (next {t = m} r step) =
    Step-OneLock name lock m t (Reach-OneLock name lock s m o r) step

-- A lock is entered for a name, and all threads are about to start `get_lock`. Then, however their
-- steps are interleaved, that lock stays entered, and a thread that is given a lock for the name is
-- given that one.
pub Reach-same_lock :
    (name : Text) (lock : ℕ) (s t : Threads)
    → lookup name s.locks ≡ some lock
    → AllTesting s.places
    → Reach s t
    → (lookup name t.locks ≡ some lock)
      × ((i l : ℕ) → get_elem? t.places i ≡ some (Place.given name l) → l ≡ lock)
Reach-same_lock name lock s t h a r =
    let o =
      Reach-OneLock name lock s t
        (record { entered = h; agreed = testing-Agrees name lock s.places a }) r in
    (o.entered, λ i l e. o.agreed i (Place.given name l) e refl)

abbrev two_threads : Text → Threads
two_threads name = record {
  locks = [];
  next_lock = 0;
  places = Place.testing name ∷ Place.testing name ∷ [];
}

-- The locks and the places after some steps of two threads.
abbrev at_places : Dict Text ℕ → ℕ → Place → Place → Threads
at_places locks next_lock p q = record { locks = locks; next_lock = next_lock; places = p ∷ q ∷ [] }

tested_twice :
    (name : Text)
    → Reach (two_threads name) (at_places [] 0 (Place.making name) (Place.making name))
unfolding contains
tested_twice name =
    let once : Reach (two_threads name) (at_places [] 0 (Place.making name) (Place.testing name)) =
      Reach.next Reach.here (Step.test 0 name refl refl) in
    Reach.next once (Step.test 1 name refl refl)

first_given :
    (name : Text)
    → Reach
        (two_threads name)
        (at_places ((name, 0) ∷ []) 1 (Place.given name 0) (Place.making name))
unfolding lookup insert
first_given name =
    let made : Reach (two_threads name)
        (at_places ((name, 0) ∷ []) 1 (Place.reading name) (Place.making name)) =
      Reach.next (tested_twice name) (Step.make 0 name refl refl) in
    Reach.next made (Step.read 0 name 0 refl (rw (beq_refl name) refl) refl)

-- Two threads that ask for the lock of the same user for the first time can be given different
-- locks.
pub Reach-two_locks :
    (name : Text)
    → Reach
        (two_threads name)
        (at_places ((name, 1) ∷ []) 2 (Place.given name 0) (Place.given name 1))
unfolding lookup insert
Reach-two_locks name =
    let made : Reach (two_threads name)
        (at_places ((name, 1) ∷ []) 2 (Place.given name 0) (Place.reading name)) =
      Reach.next (first_given name) (Step.make 1 name refl (rw (beq_refl name) refl)) in
    Reach.next made (Step.read 1 name 1 refl (rw (beq_refl name) refl) refl)
