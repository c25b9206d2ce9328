-- ===== src/Rtsp/Runs.antt =====
-- src/common/rtsp-parser.c: what a parser's loop comes to, turn by turn.
use box_rtsp.Prelude.{ℕ, zero, suc, ◌≤◌, ◌<◌, ◌≡◌, refl, arith, lt→ltb, length, get_or, ℤ}
use box_rtsp.Rtsp.Parser.{Parser}
use box_rtsp.Rtsp.Exec.{Exec, ok, Step, next, leave, loop}
use box_rtsp.Rtsp.Safe.Rules.{peek_lem}

module _ (at : Parser → ℕ) (step : Parser → ℕ → Exec Step) (measure : Parser → ℕ) where
  -- With more fuel than the measure the loop ends as `r`.
  abbrev pub Runs : Parser → ℤ × Parser → Type 0
  Runs q r = (f : ℕ) → measure q < f → loop at step f q ≡ ok r

  pub Runs-step :
      (q s : Parser) (c : ℕ) (r : ℤ × Parser)
      → at q < q.raw_size
      → q.raw_size ≤ length q.raw
      → get_or q.raw (at q) 0 ≡ c
      → step q c ≡ ok (next s)
      → measure s < measure q
      → Runs s r
      → Runs q r
  unfolding loop
  Runs-step q s c r o n e t m h zero l = elim l [ ]
  Runs-step q s c r o n e t m h (suc f) l =
      rw (loop, lt→ltb (at q) q.raw_size o, peek_lem q (at q) (omega arith), e, t)
        (h f (omega arith))

  pub Runs-leave :
      (q s : Parser) (c : ℕ) (k : ℤ)
      → at q < q.raw_size
      → q.raw_size ≤ length q.raw
      → get_or q.raw (at q) 0 ≡ c
      → step q c ≡ ok (leave k s)
      → Runs q (k, s)
  unfolding loop
  Runs-leave q s c k o n e t zero l = elim l [ ]
  Runs-leave q s c k o n e t (suc f) l =
      rw (loop, lt→ltb (at q) q.raw_size o, peek_lem q (at q) (omega arith), e, t) refl
