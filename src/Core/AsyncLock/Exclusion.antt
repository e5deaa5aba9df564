-- ===== src/Core/AsyncLock/Exclusion.antt =====
-- core/context_store.hpp: the clients of an `async_lock` over a history, and who holds it.
use boost_taar.Common.{
  ℕ, ◌≡◌, refl, ◌∙◌, ap, sym, true, Option, none, some, List, [], ◌∷◌, ◌++◌, arith, append-nil, ◌⊎◌,
  append_assoc, inl, inr, ◌==◌, ==_iff, if◌then◌else◌,
}
use boost_taar.Core.AsyncLock.{AsyncLock, unlocked, async_acquire, release}

-- The lock with the clients that hold it, as many times as they have been resumed and have not
-- released; the clients resumed so far; and those that have asked.
pub record World : Type 0 where
  pub lock : AsyncLock
  pub holders : List ℕ
  pub granted : List ℕ
  pub asked : List ℕ

abbrev pub no_clients : World
no_clients = record { lock = unlocked; holders = []; granted = []; asked = [] }

unfoldable pub grants : Option ℕ → List ℕ
grants none = []
grants (some client) = client ∷ []

-- A client that releases holds once less.
unfoldable pub lets_go : ℕ → List ℕ → List ℕ
lets_go client [] = []
lets_go client (c ∷ cs) = let rest = lets_go client cs in if c == client then cs else c ∷ rest

unfoldable pub asks : ℕ → World → World
asks client w =
    let (lock, out) = async_acquire client w.lock in
    record {
      lock = lock;
      holders = w.holders ++ grants out;
      granted = w.granted ++ grants out;
      asked = w.asked ++ client ∷ [];
    }

unfoldable pub gives_back : ℕ → World → World
gives_back client w =
    let (lock, out) = release w.lock in
    record {
      lock = lock;
      holders = lets_go client w.holders ++ grants out;
      granted = w.granted ++ grants out;
      asked = w.asked;
    }

-- The client is one of those that hold.
abbrev pub Holds : ℕ → List ℕ → Type 0
Holds client [] = ⊥
Holds client (c ∷ cs) = (c ≡ client) ⊎ Holds client cs

-- Anybody may ask at any time, and only a client that holds the lock releases it: a guard does so
-- once for each time that the client has been resumed.
pub data Reach : World → Type 0 where
  start : {w : World} → w ≡ no_clients → Reach w
  acquires : {w v : World} (client : ℕ) → Reach w → v ≡ asks client w → Reach v
  releases :
      {w v : World} (client : ℕ)
      → Reach w
      → Holds client w.holders
      → v ≡ gives_back client w
      → Reach v

-- Nobody holds the lock and nobody waits, or one client holds it.
abbrev pub Exclusive : AsyncLock → List ℕ → Type 0
Exclusive l [] = l ≡ unlocked
Exclusive l (c ∷ []) = l.locked ≡ true
Exclusive l (c ∷ d ∷ cs) = ⊥

pub record Inv (w : World) : Type 0 where
  pub exclusive : Exclusive w.lock w.holders
  pub fifo : w.granted ++ w.lock.waiters ≡ w.asked

asks-Exclusive :
    (client : ℕ) (l : AsyncLock) (holders : List ℕ)
    → Exclusive l holders
    → Exclusive (async_acquire client l).0 (holders ++ grants (async_acquire client l).1)
unfolding async_acquire grants
asks-Exclusive client l [] h = rw h refl
asks-Exclusive client l (c ∷ []) h = rw h refl
asks-Exclusive client l (c ∷ d ∷ cs) h = absurd h

asks-fifo :
    (client : ℕ) (l : AsyncLock) (granted asked holders : List ℕ)
    → Exclusive l holders
    → granted ++ l.waiters ≡ asked
    → (granted ++ grants (async_acquire client l).1) ++ (async_acquire client l).0.waiters
      ≡ asked ++ client ∷ []
unfolding async_acquire grants
asks-fifo client l granted asked [] h f =
    let still : granted ++ [] ≡ asked = sym (ap (λ k. granted ++ k.waiters) h) ∙ f in
    rw h (
      append-nil (granted ++ client ∷ [])
      ∙ ap (λ xs. xs ++ client ∷ []) (sym (append-nil granted) ∙ still))
asks-fifo client l granted asked (c ∷ []) h f =
    rw (h, append-nil granted)
      (sym (append_assoc granted l.waiters (client ∷ [])) ∙ ap (λ xs. xs ++ client ∷ []) f)
asks-fifo client l granted asked (c ∷ d ∷ cs) h f = absurd h

asks-Inv : (client : ℕ) (w : World) → Inv w → Inv (asks client w)
unfolding asks
asks-Inv client w h = record {
  exclusive = asks-Exclusive client w.lock w.holders h.exclusive;
  fifo = asks-fifo client w.lock w.granted w.asked w.holders h.exclusive h.fifo;
}

-- What a release grants and what it leaves waiting are what waited before.
granted-release :
    (granted : List ℕ) (l : AsyncLock) (waiting : List ℕ)
    → l.waiters ≡ waiting
    → (granted ++ grants (release l).1) ++ (release l).0.waiters ≡ granted ++ l.waiters
unfolding release grants
granted-release granted l [] e = ground (arith, append-nil granted)
granted-release granted l (next ∷ rest) e = ground (arith, append_assoc granted (next ∷ []) rest)

release-Exclusive :
    (l : AsyncLock) (waiting : List ℕ)
    → l.locked ≡ true
    → l.waiters ≡ waiting
    → Exclusive (release l).0 (grants (release l).1)
unfolding release grants
release-Exclusive l [] t e = rw e refl
release-Exclusive l (next ∷ rest) t e = rw e t

gives_back-Exclusive :
    (client : ℕ) (l : AsyncLock) (holders : List ℕ)
    → Exclusive l holders
    → Holds client holders
    → Exclusive (release l).0 (lets_go client holders ++ grants (release l).1)
unfolding lets_go
gives_back-Exclusive client l [] h held = absurd held
gives_back-Exclusive client l (c ∷ []) h (inl e) =
    rw ((==_iff c client).1 e) (release-Exclusive l l.waiters h refl)
gives_back-Exclusive client l (c ∷ []) h (inr held) = absurd held
gives_back-Exclusive client l (c ∷ d ∷ cs) h held = absurd h

gives_back-Inv :
    (client : ℕ) (w : World) → Holds client w.holders → Inv w → Inv (gives_back client w)
unfolding gives_back
gives_back-Inv client w held h = record {
  exclusive = gives_back-Exclusive client w.lock w.holders h.exclusive held;
  fifo = granted-release w.granted w.lock w.lock.waiters refl ∙ h.fifo;
}

pub Reach-Inv : (w : World) → Reach w → Inv w
Reach-Inv w (start e) = rw e (record { exclusive = refl; fifo = refl })
Reach-Inv v (acquires {w} client r e) = rw e (asks-Inv client w (Reach-Inv w r))
Reach-Inv v (releases {w} client r held e) = rw e (gives_back-Inv client w held (Reach-Inv w r))

-- When anybody may acquire and only a client that holds the lock releases it: at most one client
-- holds it at any moment, however often each has been resumed; it is locked while one does, and
-- unlocked with nobody waiting while none does; and the clients resumed so far followed by those
-- that wait are all that asked, in that order.
pub async_lock-Exclusive :
    (w : World) → Reach w → Exclusive w.lock w.holders × (w.granted ++ w.lock.waiters ≡ w.asked)
async_lock-Exclusive w r = let h = Reach-Inv w r in (h.exclusive, h.fifo)
