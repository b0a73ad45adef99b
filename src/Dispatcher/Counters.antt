-- ===== src/Dispatcher/Counters.antt =====
-- The counters of libwnbd/libwnbd.cpp balance, whatever the order of requests and replies.
use wnbd.Prelude.{◌+◌, ◌≡◌, refl, sym, subst, arith, split-if, either-if, not, ◌==◌}
use wnbd.Word.{inc64, dec64, wrap64}
use wnbd.Types.{RequestType, IoRequest, Command}
use wnbd.Dispatcher.{
  UserStats, Incoming, Response, UserDisk, is_running, Win32Error, Verdict, disconnect, hand_over,
  unsupported, stop_dispatcher, send_response, refusal_of, refused_end, judge, run_verdict,
  handle_request, count_blocks, count_error, count_reply, with_stats, one_more_pending, arrived,
  submitted, invalid,
}

-- The counters of a disk between two calls.
pub record IsBalanced (s : UserStats) : Type 0 where
  -- Every request was submitted or found invalid.
  pub received :
      s.total_received_requests ≡ wrap64 (s.total_submitted_requests + s.invalid_requests)
  pub none_left : s.unsubmitted_requests ≡ 0
  -- Every such request is pending or was replied to.
  pub pending :
      wrap64 (s.pending_submitted_requests + s.total_received_replies)
      ≡ wrap64 (s.total_submitted_requests + s.invalid_requests)
  pub none_sending : s.pending_replies ≡ 0

-- The counters that matter are the same.
record IsSame (s t : UserStats) : Type 0 where
  total_received : t.total_received_requests ≡ s.total_received_requests
  total_submitted : t.total_submitted_requests ≡ s.total_submitted_requests
  replies : t.total_received_replies ≡ s.total_received_replies
  unsubmitted : t.unsubmitted_requests ≡ s.unsubmitted_requests
  pending_submitted : t.pending_submitted_requests ≡ s.pending_submitted_requests
  sending : t.pending_replies ≡ s.pending_replies
  invalid_ones : t.invalid_requests ≡ s.invalid_requests

same : {s : UserStats} → IsSame s s
same = record {
  total_received = refl;
  total_submitted = refl;
  replies = refl;
  unsubmitted = refl;
  pending_submitted = refl;
  sending = refl;
  invalid_ones = refl;
}

count_error-IsSame : (t : RequestType) (s : UserStats) → IsSame s (count_error t s)
unfolding count_error
count_error-IsSame t s = record {
  total_received = ground arith;
  total_submitted = ground arith;
  replies = ground arith;
  unsubmitted = ground arith;
  pending_submitted = ground arith;
  sending = ground arith;
  invalid_ones = ground arith;
}

count_blocks-IsSame :
    (t : RequestType) (c : Command) (s : UserStats) → IsSame s (count_blocks t c s)
unfolding count_blocks
count_blocks-IsSame t c s = record {
  total_received = ground arith;
  total_submitted = ground arith;
  replies = ground arith;
  unsubmitted = ground arith;
  pending_submitted = ground arith;
  sending = ground arith;
  invalid_ones = ground arith;
}

-- The counters after a reply, its error counter aside.
replied : UserStats → UserStats
replied s = record s {
  total_received_replies = inc64 s.total_received_replies;
  pending_submitted_requests = dec64 s.pending_submitted_requests;
}

count_reply-IsSame : (r : Response) (s : UserStats) → IsSame (replied s) (count_reply r s)
unfolding count_reply replied
count_reply-IsSame r s =
    either-if (IsSame (replied s)) (r.status.scsi_status == 0) _ _ same
      (count_error-IsSame r.request_type (replied s))

-- A response, whether it is sent or not; `stale` counts what a call of the driver counts.
sent-stats :
    (ioctl : Win32Error) (r : Response) (d : UserDisk)
    → d.stats.pending_replies ≡ 0
    → IsSame (replied d.stats) (send_response ioctl r d).1.stats
unfolding send_response replied
sent-stats ioctl r d h =
    let c = count_reply-IsSame r d.stats in
    split-if (λ (x : Win32Error × UserDisk). IsSame (replied d.stats) x.1.stats)
      (not (is_running (record d { stats = count_reply r d.stats }))) _ _ (λ e. c)
      (λ e. record {
        total_received = c.total_received;
        total_submitted = c.total_submitted;
        replies = c.replies;
        unsubmitted = c.unsubmitted;
        pending_submitted = c.pending_submitted;
        sending = omega (arith, c.sending, h);
        invalid_ones = c.invalid_ones;
      })

-- A reply of the disk's owner.
replied-IsBalanced : (s t : UserStats) → IsSame (replied s) t → IsBalanced s → IsBalanced t
unfolding replied
replied-IsBalanced s t e b = record {
  received = omega (arith, e.total_received, e.total_submitted, e.invalid_ones, b.received);
  none_left = omega (arith, e.unsubmitted, b.none_left);
  pending =
      omega (arith, e.replies, e.pending_submitted, e.total_submitted, e.invalid_ones, b.pending);
  none_sending = omega (arith, e.sending, b.none_sending);
}

-- A request that was submitted.
submitted-IsBalanced :
    (s t : UserStats) → IsSame (arrived s) t → IsBalanced s → IsBalanced (submitted t)
submitted-IsBalanced s t e b = record {
  received = omega (arith, e.total_received, e.total_submitted, e.invalid_ones, b.received);
  none_left = omega (arith, e.unsubmitted, b.none_left);
  pending =
      omega (arith, e.replies, e.pending_submitted, e.total_submitted, e.invalid_ones, b.pending);
  none_sending = omega (arith, e.sending, b.none_sending);
}

-- A request that was refused: its response was counted.
invalid-IsBalanced :
    (s t : UserStats)
    → IsSame (replied (one_more_pending (arrived s))) t
    → IsBalanced s
    → IsBalanced (invalid t)
unfolding replied
invalid-IsBalanced s t e b = record {
  received = omega (arith, e.total_received, e.total_submitted, e.invalid_ones, b.received);
  none_left = omega (arith, e.unsubmitted, b.none_left);
  pending =
      omega (arith, e.replies, e.pending_submitted, e.total_submitted, e.invalid_ones, b.pending);
  none_sending = omega (arith, e.sending, b.none_sending);
}

refused_end-stats : (r : Win32Error × UserDisk) → (refused_end r).stats ≡ r.1.stats
unfolding refused_end
refused_end-stats (status, d) = ground arith

run_verdict-IsBalanced :
    (ioctl : Win32Error) (v : Verdict) (r : IoRequest) (d : UserDisk)
    → IsBalanced d.stats
    → IsBalanced (run_verdict ioctl v r (with_stats arrived d)).stats
unfolding run_verdict
run_verdict-IsBalanced ioctl disconnect r d b =
    submitted-IsBalanced d.stats (arrived d.stats) same b
run_verdict-IsBalanced ioctl hand_over r d b =
    submitted-IsBalanced d.stats (count_blocks r.request_type r.cmd (arrived d.stats))
      (count_blocks-IsSame r.request_type r.cmd (arrived d.stats)) b
run_verdict-IsBalanced ioctl (unsupported asc) r d b =
    let d' = with_stats one_more_pending (with_stats arrived d) in
    invalid-IsBalanced d.stats _
      (subst (IsSame (replied d'.stats))
        (sym (refused_end-stats (send_response ioctl (refusal_of asc r) d')))
        (sent-stats ioctl (refusal_of asc r) d' b.none_sending))
      b

-- The disk after any sequence of calls: requests that are handled, replies of the owner, and stops.
pub data Reach (d : UserDisk) : UserDisk → Type 0 where
  begin : Reach d d
  handle :
      {e : UserDisk} (ioctl : Win32Error) (i : Incoming)
      → Reach d e
      → Reach d (handle_request ioctl i e)
  reply :
      {e : UserDisk} (ioctl : Win32Error) (r : Response)
      → Reach d e
      → Reach d (send_response ioctl r e).1
  stop : {e : UserDisk} → Reach d e → Reach d (stop_dispatcher e)

stop_dispatcher-stats : (d : UserDisk) → (stop_dispatcher d).stats ≡ d.stats
unfolding stop_dispatcher
stop_dispatcher-stats d = ground arith

-- From balanced counters, in any order of requests, replies of the disk's owner and stops: modulo
-- 2 ^ 64, the requests received are those submitted and those found invalid, and as many are pending or
-- were replied to; no request is left unsubmitted, and no reply counts as being sent.
pub reach-IsBalanced : (d e : UserDisk) → IsBalanced d.stats → Reach d e → IsBalanced e.stats
unfolding handle_request
reach-IsBalanced d e b begin = b
reach-IsBalanced d e b (handle {e = x} ioctl i h) =
    run_verdict-IsBalanced ioctl (judge x i) i.request x (reach-IsBalanced d x b h)
reach-IsBalanced d e b (reply {e = x} ioctl r h) =
    let c = reach-IsBalanced d x b h in
    replied-IsBalanced x.stats _ (sent-stats ioctl r x c.none_sending) c
reach-IsBalanced d e b (stop {e = x} h) =
    subst IsBalanced (sym (stop_dispatcher-stats x)) (reach-IsBalanced d x b h)
