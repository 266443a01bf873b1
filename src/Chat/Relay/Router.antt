-- ===== src/Chat/Relay/Router.antt =====
-- service/chat/router.go: `RunToRouter`, with the writer of `loopRouter` that sends the frames of the
-- channel `WsOutbound` to the router. The frame that announces the gateway, and the reader, are left
-- out.
use mathlib.Core.List.{Memᴰ, Sublistᴰ, append_assoc, map-append}
use mathlib.Core.List.Sublistᴰ
use ppchat.Prelude.{
  ℕ, zero, suc, ◌+◌, ◌*◌, ◌≤◌, ◌<◌, ◌≡◌, ◌≢◌, refl, sym, arith, ap, subst, ◌∙◌, Bool, true, false,
  List, [], ◌∷◌, ◌++◌, map, length, length-append, ltb, if◌then◌else◌, if_elim,
}

-- What comes of one attempt: the dialling or the call of `Gateway` fails, or that many calls of `Send`
-- return no error and the next one returns one.
pub data Link : Type 0 where
  refused : Link
  breaks_after : ℕ → Link

-- The frames whose `Send` returns no error in a turn, which is no promise that they arrive, and those that it leaves in the channel; a turn that has not failed
-- waits for further frames.
pub record Turn (Frame : Type 0) : Type 0 where
  pub sent : List Frame
  pub left : List Frame
  pub failed : Bool

-- The frames whose `Send` returned no error, those in the channel, and the sleeps in milliseconds, in order.
pub record Run (Frame : Type 0) : Type 0 where
  pub all_sent : List Frame
  pub outbound : List Frame
  pub slept : List ℕ

unfoldable pub next_retry : ℕ → ℕ
next_retry retry = if ltb retry 5000 then retry * 2 else retry

-- `stamp` sets the id of the gateway.
module _ {Frame : Type 0} (stamp : Frame → Frame) where
  abbrev sends : Frame → Turn Frame → Turn Frame
  sends f t = record t { sent = stamp f ∷ t.sent }

  -- The writer: a frame is out of the channel when its `Send` fails.
  unfoldable pub write_frames : ℕ → List Frame → Turn Frame
  write_frames n [] = record { sent = []; left = []; failed = false }
  write_frames zero (f ∷ fs) = record { sent = []; left = fs; failed = true }
  write_frames (suc n) (f ∷ fs) = sends f (write_frames n fs)

  unfoldable pub loop_router : Link → List Frame → Turn Frame
  unfolding write_frames
  loop_router refused fs = record { sent = []; left = fs; failed = true }
  loop_router (breaks_after n) fs = write_frames n fs

  -- The frames are those that are pushed into the channel, from now on too. `RunToRouter` starts with
  -- 1000 milliseconds.
  unfoldable pub run_to_router : List Link → ℕ → List Frame → Run Frame
  unfolding loop_router next_retry
  run_to_router [] retry fs = record { all_sent = []; outbound = fs; slept = [] }
  run_to_router (l ∷ ls) retry fs =
      let t = loop_router l fs in
      let rest = run_to_router ls (next_retry retry) t.left in
      if t.failed
      then record {
        all_sent = t.sent ++ rest.all_sent;
        outbound = rest.outbound;
        slept = retry ∷ rest.slept;
      }
      else record { all_sent = t.sent; outbound = t.left; slept = [] }

abbrev loss : Link → ℕ
loss refused = 0
loss (breaks_after n) = 1

-- The number of attempts that open a stream.
abbrev pub opened : List Link → ℕ
opened [] = 0
opened (l ∷ ls) = loss l + opened ls

-- A turn takes the frames `passed` out of the channel, and `Send` returns no error for all of them if it
-- has not failed, or else for all but one for an open stream.
record Passes {Frame : Type 0} (stamp : Frame → Frame) (fs : List Frame) (lost : ℕ) (t : Turn Frame)
    : Type 0 where
  passed : List Frame
  parts : passed ++ t.left ≡ fs
  in_order : Sublistᴰ t.sent (map stamp passed)
  all_but : t.failed ≡ true → length passed ≡ length t.sent + lost
  each : t.failed ≡ false → (length passed ≡ length t.sent) × (t.left ≡ [])

module _ {Frame : Type 0} (stamp : Frame → Frame) where
  write_frames-Passes : (n : ℕ) (fs : List Frame) → Passes stamp fs 1 (write_frames stamp n fs)
  unfolding write_frames
  write_frames-Passes n [] = record {
    passed = [];
    parts = refl;
    in_order = Sublistᴰ.slnil;
    all_but = λ h. absurd (cc);
    each = λ _. (refl, refl);
  }
  write_frames-Passes zero (f ∷ fs) = record {
    passed = f ∷ [];
    parts = refl;
    in_order = Sublistᴰ.cons Sublistᴰ.slnil;
    all_but = λ _. refl;
    each = λ h. absurd (cc);
  }
  write_frames-Passes (suc n) (f ∷ fs) =
      let p = write_frames-Passes n fs in
      record {
        passed = f ∷ p.passed;
        parts = ap (λ t. f ∷ t) p.parts;
        in_order = Sublistᴰ.cons-cons refl p.in_order;
        all_but = λ h. omega (arith, p.all_but h);
        each = λ h. let (size, none_left) = p.each h in (ap suc size, none_left);
      }

  loop_router-Passes :
      (l : Link) (fs : List Frame) → Passes stamp fs (loss l) (loop_router stamp l fs)
  unfolding loop_router
  loop_router-Passes refused fs = record {
    passed = [];
    parts = refl;
    in_order = Sublistᴰ.slnil;
    all_but = λ _. refl;
    each = λ h. absurd (cc);
  }
  loop_router-Passes (breaks_after n) fs = write_frames-Passes n fs

  record Skips (ls : List Link) (fs : List Frame) (r : Run Frame) : Type 0 where
    passed : List Frame
    parts : passed ++ r.outbound ≡ fs
    in_order : Sublistᴰ r.all_sent (map stamp passed)
    all_but : r.outbound ≢ [] → length passed ≡ length r.all_sent + opened ls

  run_to_router-Skips :
      (ls : List Link) (retry : ℕ) (fs : List Frame) → Skips ls fs (run_to_router stamp ls retry fs)
  unfolding run_to_router
  run_to_router-Skips [] retry fs = record {
    passed = [];
    parts = refl;
    in_order = Sublistᴰ.slnil;
    all_but = λ _. refl;
  }
  run_to_router-Skips (l ∷ ls) retry fs =
      let t = loop_router stamp l fs in
      let p : Passes stamp fs (loss l) t = loop_router-Passes l fs in
      let q = run_to_router-Skips ls (next_retry retry) t.left in
      if_elim (Skips (l ∷ ls) fs) t.failed
        (λ fails. record {
          passed = p.passed ++ q.passed;
          parts = append_assoc p.passed q.passed _ ∙ ap (λ x. p.passed ++ x) q.parts ∙ p.parts;
          in_order =
              subst (Sublistᴰ _) (sym (map-append stamp p.passed q.passed))
                (Sublistᴰ.append p.in_order q.in_order);
          all_but = λ some_left. omega (
            arith,
            p.all_but fails,
            q.all_but some_left,
            length-append p.passed q.passed,
            length-append t.sent (run_to_router stamp ls (next_retry retry) t.left).all_sent,
          );
        })
        (λ lasts. record {
          passed = p.passed;
          parts = p.parts;
          in_order = p.in_order;
          all_but = λ some_left. absurd (some_left (p.each lasts).1);
        })

  -- Where frames are left in the channel after some attempts: the frames that were taken out of it are
  -- those before them; the ones whose `Send` returned no error are among these in their order, each
  -- with the id of the gateway; and for exactly one for each attempt that opened a stream `Send`
  -- returned an error, and it was not tried again. Whether the others arrive is not said.
  pub run_to_router-unsent :
      (ls : List Link) (retry : ℕ) (fs : List Frame)
      → (run_to_router stamp ls retry fs).outbound ≢ []
      → let r = run_to_router stamp ls retry fs in
        (passed : List Frame) × (passed ++ r.outbound ≡ fs)
        × Sublistᴰ r.all_sent (map stamp passed)
        × (length passed ≡ length r.all_sent + opened ls)
  run_to_router-unsent ls retry fs some_left =
      let q = run_to_router-Skips ls retry fs in
      (q.passed, q.parts, q.in_order, q.all_but some_left)

  -- No sleep is shorter than the first one, or as long as 10 seconds where that is below them; so a
  -- stream that was open does not take the sleeps back to the start.
  run_to_router-slept :
      (ls : List Link) (retry : ℕ) (fs : List Frame) (d : ℕ)
      → retry < 10000
      → Memᴰ d (run_to_router stamp ls retry fs).slept
      → (retry ≤ d) × (d < 10000)
  unfolding run_to_router next_retry
  run_to_router-slept [] retry fs d small = λ h. elim h [ ]
  run_to_router-slept (l ∷ ls) retry fs d small =
      let t = loop_router stamp l fs in
      let next : (retry ≤ next_retry retry) × (next_retry retry < 10000) = ground (arith, small) in
      if_elim (λ (r : Run Frame). Memᴰ d r.slept → (retry ≤ d) × (d < 10000)) t.failed
        (λ fails h. elim h [
          | Memᴰ.head e ↦ omega (arith, e, small)
          | Memᴰ.tail later ↦
              omega (arith, next, run_to_router-slept ls (next_retry retry) t.left d next.1 later)
        ])
        (λ lasts h. elim h [ ])
