-- ===== src/Channel.antt =====
-- Go's buffered channel, as the components under internal/ use it: a send in a `select` with a
-- `default`, a receive, `len`, `close`. A run-time panic is a value of its own.
pub mod Pick
use monitoring_tool.Prelude.{
  ℕ, zero, suc, Bool, true, false, List, [], ◌∷◌, ◌++◌, Option, none, some, arith, ltb, length,
  if◌then◌else◌,
}

pub record Channel {ℓ} (A : Type ℓ) : Type ℓ where
  pub buffer : List A
  pub capacity : ℕ
  pub closed : Bool

-- `select { case ch <- x: … default: … }`; a send on a closed channel panics.
pub data Sending {ℓ} (A : Type ℓ) : Type ℓ where
  sent : Channel A → Sending A
  full : Sending A
  send_panic : Sending A

-- `x, ok := <-ch`; `drained` is ok = false.
pub data Receiving {ℓ} (A : Type ℓ) : Type ℓ where
  received : A → Channel A → Receiving A
  drained : Receiving A
  blocked : Receiving A

module _ {ℓ} {A : Type ℓ} where
  abbrev pub make_chan : ℕ → Channel A
  make_chan n = record { buffer = []; capacity = n; closed = false }

  abbrev pub try_send : Channel A → A → Sending A
  try_send ch x =
      if ch.closed
      then send_panic
      else if ltb (length ch.buffer) ch.capacity
      then sent (record ch { buffer = ch.buffer ++ x ∷ [] })
      else full

  abbrev take_first : Channel A → List A → Receiving A
  take_first ch [] = if ch.closed then drained else blocked
  take_first ch (x ∷ xs) = received x (record ch { buffer = xs })

  abbrev pub receive : Channel A → Receiving A
  receive ch = take_first ch ch.buffer

  -- `none` is the panic of closing a closed channel.
  abbrev pub close_chan : Channel A → Option (Channel A)
  close_chan ch = if ch.closed then none else some (record ch { closed = true })

  abbrev pub chan_len : Channel A → ℕ
  chan_len ch = length ch.buffer

  -- A goroutine's item out of those that wait: the i-th, and the rest in order.
  abbrev pub pick : ℕ → List A → Option (A × List A)
  pick i [] = none
  pick zero (x ∷ xs) = some (x, xs)
  pick (suc i) (x ∷ xs) = elim (pick i xs) [ none ↦ none | some (y, ys) ↦ some (y, x ∷ ys) ]
