-- ===== src/Books/Moves.antt =====
-- Each way in which the driver moves a request keeps the books.
use wnbd.Prelude.{ℕ, ◌≡◌, true, false, List, [], ◌∷◌, ◌++◌, arith, All-append}
use wnbd.Wdk.{SrbStatus}
use wnbd.Types.{Device, Element}
use wnbd.Submitted.{unlink}
use wnbd.Request.Complete.{abort_element}
use wnbd.Request.Send.{fail_element, submit}
use wnbd.Request.Dispatch.{tagged}
use wnbd.Request.Response.{ReplyEnv, Replying, reply_exit}
use wnbd.Submitted.Buckets.{Distinct, Member}
use wnbd.Books.{is_addr, is_id, unit_weight, IsLive, Books, total-append, total-unlink, All-unlink}

module _ {arrived : List ℕ} {lost p s : List Element} {d : Device} (e : Element) where
  -- A pending request that fails before it is submitted.
  pub fail_element-Books :
      (status : SrbStatus)
      → Books arrived lost (e ∷ p) s d
      → Books arrived lost p s (fail_element d e status)
  unfolding fail_element
  fail_element-Books status b = record {
    unique = λ a. ground (arith, b.unique a);
    live_pending = b.live_pending.1;
    live_submitted = b.live_submitted;
    unsubmitted = ground arith;
    pending_submitted = ground arith;
    outstanding = ground arith;
    conserved = λ i. ground (arith, b.conserved i);
  }

  -- A pending request that is submitted.
  pub submit-Books :
      (now : ℕ)
      → Books arrived lost (e ∷ p) s d
      → Books arrived lost p (s ++ e ∷ []) (submit d e now)
  unfolding submit
  submit-Books now b = record {
    unique = λ a. ground (arith, b.unique a, total-append (is_addr a) s (e ∷ []));
    live_pending = b.live_pending.1;
    live_submitted = All-append IsLive s (e ∷ []) b.live_submitted (b.live_pending.0, tt);
    unsubmitted = ground (arith, b.unsubmitted);
    pending_submitted = ground (arith, total-append unit_weight s (e ∷ []));
    outstanding = ground (arith, total-append unit_weight s (e ∷ []));
    conserved = λ i. ground (arith, b.conserved i, total-append (is_id i) s (e ∷ []));
  }

  -- A pending request that is aborted.
  pub abort_pending-Books :
      Books arrived lost (e ∷ p) s d → Books arrived lost p s (abort_element false d e)
  unfolding abort_element
  abort_pending-Books b = record {
    unique = λ a. ground (arith, b.unique a);
    live_pending = b.live_pending.1;
    live_submitted = b.live_submitted;
    unsubmitted = ground arith;
    pending_submitted = ground arith;
    outstanding = ground arith;
    conserved = λ i. ground (arith, b.conserved i);
  }

  -- A submitted request that is aborted.
  pub abort_submitted-Books :
      Books arrived lost p (e ∷ s) d → Books arrived lost p s (abort_element true d e)
  unfolding abort_element
  abort_submitted-Books b = record {
    unique = λ a. ground (arith, b.unique a);
    live_pending = b.live_pending;
    live_submitted = b.live_submitted.1;
    unsubmitted = ground arith;
    pending_submitted = ground arith;
    outstanding = ground arith;
    conserved = λ i. ground (arith, b.conserved i);
  }

  -- A pending request that takes its tag.
  pub tagged-Books :
      (tag : ℕ) → Books arrived lost (e ∷ p) s d → Books arrived lost (tagged tag e ∷ p) s d
  tagged-Books tag b = record {
    unique = λ a. ground (arith, b.unique a);
    live_pending = b.live_pending;
    live_submitted = b.live_submitted;
    unsubmitted = ground arith;
    pending_submitted = ground arith;
    outstanding = ground arith;
    conserved = λ i. ground (arith, b.conserved i);
  }

  -- A request that left the pending list, and that a removal keeps from going further.
  pub lose-Books : Books arrived lost (e ∷ p) s d → Books arrived (e ∷ lost) p s d
  lose-Books b = record {
    unique = λ a. ground (arith, b.unique a);
    live_pending = b.live_pending.1;
    live_submitted = b.live_submitted;
    unsubmitted = ground arith;
    pending_submitted = ground arith;
    outstanding = ground arith;
    conserved = λ i. ground (arith, b.conserved i);
  }

  -- A submitted request that a reply completes.
  pub reply-Books :
      (env : ReplyEnv) (r : Replying)
      → r.element.addr ≡ e.addr
      → r.element.srb.id ≡ e.srb.id
      → r.element.aborted ≡ false
      → r.element.completed ≡ false
      → Distinct s
      → Member e s
      → Books arrived lost p s d
      → Books arrived lost p (unlink e.addr s) (reply_exit env d r).1
  unfolding reply_exit
  reply-Books env r ha hi hb hc distinct m b = record {
    unique = λ a. ground (arith, b.unique a, total-unlink (is_addr a) s e distinct m);
    live_pending = b.live_pending;
    live_submitted = All-unlink e.addr s b.live_submitted;
    unsubmitted = ground arith;
    pending_submitted = ground (arith, total-unlink unit_weight s e distinct m);
    outstanding = ground (arith, total-unlink unit_weight s e distinct m);
    conserved = λ i. ground (arith, b.conserved i, total-unlink (is_id i) s e distinct m);
  }
