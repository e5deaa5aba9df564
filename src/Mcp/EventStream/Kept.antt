-- ===== src/Mcp/EventStream/Kept.antt =====
-- mcp/endpoint.hpp: which events a slot keeps, and where they stand.
use boost_taar.Common.{
  ℕ, zero, suc, ◌-◌, ◌≤◌, ◌<◌, ◌≡◌, refl, ap, sym, ◌∙◌, false, List, [], ◌∷◌, ◌++◌, drop-append,
  Bytes, All, drop, length, length-append, arith,
}
use boost_taar.Core.AsyncChannel.{trim_values}
use boost_taar.Core.AsyncChannel.Invariant.{Inv}
use boost_taar.Mcp.EventStream.{SseEvent, SessionSlot}

-- The ids run on from the first to before the last, with no gap.
abbrev pub Runs : ℕ → List SseEvent → ℕ → Type 0
Runs first [] next = first ≡ next
Runs first (e ∷ es) next = (e.id ≡ first) × Runs (suc first) es next

pub Runs-append :
    (first next : ℕ) (es : List SseEvent) (json : Bytes)
    → Runs first es next
    → Runs first (es ++ record { id = next; json = json } ∷ []) (suc next)
Runs-append first next [] json h = (sym h, ap suc h)
Runs-append first next (e ∷ es) json h = (h.0, Runs-append (suc first) next es json h.1)

pub Runs-drop :
    (k first next : ℕ) (es : List SseEvent)
    → Runs first es next
    → (first' : ℕ) × (first ≤ first') × Runs first' (drop k es) next
Runs-drop zero first next es h = (first, omega arith, h)
Runs-drop (suc k) first next [] h = (first, omega arith, h)
Runs-drop (suc k) first next (e ∷ es) h =
    let (first', le, rest) = Runs-drop k (suc first) next es h.1 in (first', omega arith, rest)

pub All-drop {ℓ κ} :
    {A : Type ℓ} (P : A → Type κ) (k : ℕ) (xs : List A) → All P xs → All P (drop k xs)
All-drop P zero xs h = h
All-drop P (suc k) [] h = h
All-drop P (suc k) (x ∷ xs) h = All-drop P k xs h.1

-- The id of the last event that left the mailbox.
abbrev pub last_id : ℕ → List SseEvent → ℕ
last_id id [] = id
last_id id (e ∷ es) = last_id e.id es

pub last_id-append : (id : ℕ) (es : List SseEvent) (e : SseEvent) → last_id id (es ++ e ∷ []) ≡ e.id
last_id-append id [] e = refl
last_id-append id (x ∷ es) e = last_id-append x.id es e

abbrev pub seen : SessionSlot → ℕ
seen s = last_id s.last_taken s.handed

-- Older events, that a stream has taken or is about to mark, and behind them those of the mailbox.
pub record Kept (s : SessionSlot) : Type 0 where
  pub older : List SseEvent
  pub first : ℕ
  pub parts : s.history ≡ older ++ s.mailbox.values
  pub taken : All (λ e. e.id ≤ seen s) older
  pub queued : Runs first s.mailbox.values s.next_event_id
  pub unseen : seen s < first
  pub channel : Inv s.mailbox
  pub live : s.mailbox.closed ≡ false

pub All-weaken :
    (m n : ℕ) (es : List SseEvent) → m ≤ n → All (λ e. e.id ≤ m) es → All (λ e. e.id ≤ n) es
All-weaken m n [] le h = tt
All-weaken m n (e ∷ es) le h = (omega (arith, h.0), All-weaken m n es le h.1)

pub trimmed-parts :
    (limit : ℕ) (older values : List SseEvent)
    → (k : ℕ) × (trim_values limit (older ++ values) ≡ drop k older ++ trim_values limit values)
unfolding trim_values
trimmed-parts limit older values =
    let k = length (older ++ values) - limit in
    let fewer : k - length older ≡ length values - limit =
      omega (arith, length-append older values) in
    (k, drop-append k older values ∙ ap (λ n. drop k older ++ drop n values) fewer)

pub Runs-le : (first next : ℕ) (es : List SseEvent) → Runs first es next → first ≤ next
Runs-le first next [] h = omega arith
Runs-le first next (e ∷ es) h = omega (arith, Runs-le (suc first) next es h.1)
