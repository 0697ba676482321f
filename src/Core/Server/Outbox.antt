-- ===== src/Core/Server/Outbox.antt =====
-- What `socket_server` of src/bin/core.rs has sent: a response that was sent stays among the sent ones.
use mathlib.Core.List.{Mem, mem-cons}
use mathlib.Core.Logic.Or
use capycoin.Base.{take, ℕ, zero, suc, ◌+◌, ◌≡◌, Bool, true, false, Option, none, some, List, arith}
use capycoin.Sqlite.{Outcome, ok, err, panic, Conn, Sql}
use capycoin.Core.{AppError}
use capycoin.Core.Server.{Recv, datagram, failed, Round, Server}
use capycoin.Core.Server.Trace.{delivered, sent_reply, after_reply, conn_at, outbox_at}

mem-delivered :
    (x : ℕ × List ℕ) (sends : Bool) (pathname : Option ℕ) (resp : List ℕ)
    (outbox : List (ℕ × List ℕ))
    → Mem x outbox
    → Mem x (delivered sends pathname resp outbox)
mem-delivered x true (some a) resp outbox m = mem-cons.1 (Or.inr m)
mem-delivered x true none resp outbox m = m
mem-delivered x false pathname resp outbox m = m

mem-sent_reply :
    (x : ℕ × List ℕ) (sends : Bool) (pathname : Option ℕ) (r : Outcome AppError (Option (List ℕ)))
    (outbox : List (ℕ × List ℕ))
    → Mem x outbox
    → Mem x (sent_reply sends pathname r outbox)
mem-sent_reply x sends pathname (ok (some resp)) outbox m =
    mem-delivered x sends pathname resp outbox m
mem-sent_reply x sends pathname (ok none) outbox m = m
mem-sent_reply x sends pathname (err e) outbox m = m
mem-sent_reply x sends pathname panic outbox m = m

module _ {D : Type 0} (func : ℕ → List ℕ → Sql D AppError (Option (List ℕ))) (rounds : ℕ → Round)
    (s : Server D) where
  pub mem-after_reply :
      (x : ℕ × List ℕ) (i : ℕ) (sends : Bool) (recv : Recv) (c : Conn D)
      (outbox : List (ℕ × List ℕ))
      → Mem x outbox
      → Mem x (after_reply func i sends recv c outbox)
  mem-after_reply x i sends (datagram pathname bytes) c outbox m =
      mem-sent_reply x sends pathname (func i (take 1048576 bytes) c).0 outbox m
  mem-after_reply x i sends (failed kind) c outbox m = m

  -- What has been sent stays sent.
  pub mem-outbox_at :
      (x : ℕ × List ℕ) (i k n : ℕ)
      → i + k ≡ n
      → Mem x (outbox_at func rounds s i)
      → Mem x (outbox_at func rounds s n)
  unfolding outbox_at
  mem-outbox_at x i zero n e m = let same : i ≡ n = omega arith in rw (← same) m
  mem-outbox_at x i (suc k) n e m = mem-outbox_at x (suc i) k n (omega arith) (
      mem-after_reply x i (rounds i).sends (rounds i).recv (conn_at func rounds s i)
        (outbox_at func rounds s i) m)
