-- ===== src/Accounts/Reply.antt =====
-- A reply, WnbdHandleResponse of driver/wnbd_dispatch.c, keeps the accounts.
use wnbd.Prelude.{ℕ, ◌≡◌, refl, Option, none, some, List, arith, subst}
use wnbd.Wdk.{NtStatus}
use wnbd.Types.{Device, Element}
use wnbd.Submitted.{bucket, find_tag, unlink_both, remove_by_tag}
use wnbd.Submitted.Buckets.{Member}
use wnbd.Submitted.Sync.{IsSynced, unlink_both-IsSynced, found_in_bucket}
use wnbd.Request.SrbStatus.{set_status}
use wnbd.Request.Memory.{Memory, unmapped}
use wnbd.Request.Response.{
  Reply, ReplyEnv, Replying, Step, go, leave, process_reply, reply_exit, handle_found,
  handle_response, then_end, then_step, conclude, check_reply, data_step,
}
use wnbd.Books.{Books, All-Member}
use wnbd.Books.Moves.{reply-Books}
use wnbd.Accounts.{Accounts, Books-at, Books-same, IsSynced-same}

-- What processing a reply keeps of the element.
abbrev Keeps : Element → Element → Type 0
Keeps e e' =
    (e'.addr ≡ e.addr)
    × (e'.srb.id ≡ e.srb.id)
    × (e'.aborted ≡ e.aborted)
    × (e'.completed ≡ e.completed)

abbrev replying_of : Step → Replying
replying_of (go r) = r
replying_of (leave r) = r

check-Keeps :
    (env : ReplyEnv) (r : Replying) → Keeps r.element (replying_of (check_reply env r)).element
unfolding check_reply
check-Keeps env r = ground arith

data-Keeps :
    (env : ReplyEnv) (reply : Reply) (r : Replying)
    → Keeps r.element (replying_of (data_step env reply r)).element
unfolding data_step
data-Keeps env reply r = ground arith

conclude-Keeps : (reply : Reply) (r : Replying) → Keeps r.element (conclude reply r).element
unfolding conclude set_status
conclude-Keeps reply r = ground arith

end-Keeps :
    (e : Element) (reply : Reply) (s : Step)
    → Keeps e (replying_of s).element
    → Keeps e (then_end s (conclude reply)).element
unfolding then_end
end-Keeps e reply (go r) h = ground (arith, conclude-Keeps reply r)
end-Keeps e reply (leave r) h = h

step-Keeps :
    (e : Element) (env : ReplyEnv) (reply : Reply) (s : Step)
    → Keeps e (replying_of s).element
    → Keeps e (replying_of (then_step s (data_step env reply))).element
unfolding then_step
step-Keeps e env reply (go r) h = ground (arith, data-Keeps env reply r)
step-Keeps e env reply (leave r) h = h

process_reply-Keeps :
    (env : ReplyEnv) (reply : Reply) (r : Replying)
    → Keeps r.element (process_reply env reply r).element
unfolding process_reply
process_reply-Keeps env reply r =
    end-Keeps r.element reply (then_step (check_reply env r) (data_step env reply))
      (step-Keeps r.element env reply (check_reply env r) (check-Keeps env r))

module _ (arrived : List ℕ) (lost : List Element) where
  exit-Accounts :
      (env : ReplyEnv) (d : Device) (b : ℕ) (e : Element) (r : Replying)
      → Keeps e r.element
      → Member e d.submitted
      → IsSynced (unlink_both d b e)
      → Accounts arrived lost d
      → Accounts arrived lost (reply_exit env (unlink_both d b e) r).1
  unfolding reply_exit unlink_both
  exit-Accounts env d b e r k m v a =
      let live = All-Member d.submitted e a.books.live_submitted m in
      let d' : Device = unlink_both d b e in
      let books : Books arrived lost d.pending d.submitted d' =
        Books-same d _ refl refl refl a.books in
      record {
        books =
            Books-at (ground arith) (ground arith)
              (reply-Books e env r k.0 k.1 (ground arith) (ground arith) a.synced.distinct m books);
        synced = IsSynced-same d' _ (ground arith) (ground arith) v;
        kept = λ h. ground (arith, a.kept);
      }

  found-Accounts :
      (env : ReplyEnv) (reply : Reply) (m : Memory) (d : Device) (tag : ℕ) (o : Option Element)
      → find_tag tag (d.buckets (bucket tag)) ≡ o
      → Accounts arrived lost d
      → Accounts arrived lost
          (handle_found env reply m
            (elim o [ none ↦ (none, d) | some e ↦ (some e, unlink_both d (bucket tag) e) ])).1
  unfolding handle_found
  found-Accounts env reply m d tag none h a = a
  found-Accounts env reply m d tag (some e) h a =
      let found = found_in_bucket d tag e a.synced h in
      let v : IsSynced (unlink_both d (bucket tag) e) =
        subst (λ t. IsSynced (unlink_both d (bucket t) e)) found.1
          (unlink_both-IsSynced d e a.synced found.0) in
      let r : Replying = record {
        status = NtStatus.success;
        element = e;
        mapping = unmapped;
        memory = m;
      } in
      exit-Accounts env d (bucket tag) e (process_reply env reply r)
        (process_reply-Keeps env reply r) found.0 v a

  pub handle_response-Accounts :
      (env : ReplyEnv) (reply : Reply) (d : Device) (m : Memory)
      → Accounts arrived lost d
      → Accounts arrived lost (handle_response env reply d m).1
  unfolding handle_response remove_by_tag
  handle_response-Accounts env reply d m a =
      ground (arith, found-Accounts env reply m d reply.request_handle _ refl a)
