-- ===== src/Bridge.antt =====
-- flashrelay/worker.go: the bridge that hook goroutines use to wake the ring worker.
pub mod Wakeup
use flash_relay.Base.{ℕ, suc, Bool, true, false, List, [], ◌∷◌, ◌++◌, if◌then◌else◌}

-- `Decision` of flashrelay/flashrelay.go is a parameter here: the bridge only carries results.
pub record Bridge {ℓ} (R : Type ℓ) : Type ℓ where
  pub ready : List R
  pub notified : Bool  -- the int32 flag, which is only ever 0 or 1
  pub efd : ℕ  -- the count of the eventfd: writes not yet read

module _ {ℓ} {R : Type ℓ} where
  -- the locked append of `push`
  unfoldable pub append : R → Bridge R → Bridge R
  append r b = record b { ready = b.ready ++ r ∷ [] }

  -- `b.notified.Swap(1) == 0` and the write that it guards
  -- `b.notified.Swap(1)`, with the old value
  unfoldable pub swap : Bridge R → Bool × Bridge R
  swap b = (b.notified, record b { notified = true })

  -- `syscall.Write(b.efd, 1)`
  unfoldable pub signal : Bridge R → Bridge R
  signal b = record b { efd = suc b.efd }

  unfoldable pub wake : Bridge R → Bridge R
  unfolding swap signal
  wake b = let (old, b1) = swap b in if old then b1 else signal b1

  unfoldable pub push : R → Bridge R → Bridge R
  unfolding append wake swap signal
  push r b = wake (append r b)

  -- `br.notified.Store(0)`
  unfoldable pub clear : Bridge R → Bridge R
  clear b = record b { notified = false }

  unfoldable pub drain : Bridge R → List R × Bridge R
  drain b = (b.ready, record b { ready = [] })
