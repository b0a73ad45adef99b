-- ===== src/Request/Response/Balance.antt =====
-- WnbdHandleResponse of driver/wnbd_dispatch.c gives back every MDL and every page lock.
use wnbd.Prelude.{◌≡◌, refl, Option, none, some, arith, ◌∙◌}
use wnbd.Wdk.{NtStatus}
use wnbd.Types.{Device, Element}
use wnbd.Submitted.{remove_by_tag}
use wnbd.Request.Memory.{Memory, unmapped, lock_usermode_buffer, release}
use wnbd.Request.Response.{
  Reply, ReplyEnv, Replying, Step, go, leave, find_buffer, check_reply, take_data, data_step,
  conclude, then_step, then_end, process_reply, reply_exit, handle_found, handle_response,
}

abbrev replying_of : Step → Replying
replying_of (go r) = r
replying_of (leave r) = r

-- What the end of the call gives back.
abbrev Gives : Memory → Replying → Type 0
Gives m r = release r.mapping r.memory ≡ m

check-holds :
    (env : ReplyEnv) (r : Replying)
    → ((replying_of (check_reply env r)).mapping ≡ r.mapping)
      × ((replying_of (check_reply env r)).memory ≡ r.memory)
unfolding check_reply find_buffer
check-holds env r = ground arith

lock-released :
    (env : ReplyEnv) (m : Memory)
    → release (lock_usermode_buffer env.lock m).1 (lock_usermode_buffer env.lock m).2 ≡ m
unfolding release lock_usermode_buffer
lock-released env m = ground arith

data-Gives :
    (env : ReplyEnv) (reply : Reply) (r : Replying)
    → r.mapping ≡ unmapped
    → Gives r.memory (replying_of (data_step env reply r))
unfolding data_step take_data release
data-Gives env reply r h = ground (arith, lock-released env r.memory)

end-Gives :
    (m : Memory) (reply : Reply) (s : Step)
    → Gives m (replying_of s)
    → Gives m (then_end s (conclude reply))
unfolding then_end conclude
end-Gives m reply (go r) h = ground arith
end-Gives m reply (leave r) h = h

step-Gives :
    (m : Memory) (env : ReplyEnv) (reply : Reply) (s : Step)
    → ((replying_of s).mapping ≡ unmapped) × ((replying_of s).memory ≡ m)
    → Gives m (replying_of (then_step s (data_step env reply)))
unfolding then_step release
step-Gives m env reply (go r) h = ground (arith, data-Gives env reply r h.0)
step-Gives m env reply (leave r) h = ground arith

process-Gives :
    (env : ReplyEnv) (reply : Reply) (r : Replying)
    → r.mapping ≡ unmapped
    → Gives r.memory (process_reply env reply r)
unfolding process_reply
process-Gives env reply r h =
    let c = check-holds env r in
    end-Gives r.memory reply (then_step (check_reply env r) (data_step env reply))
      (step-Gives r.memory env reply (check_reply env r) (c.0 ∙ h, c.1))

found-balanced :
    (env : ReplyEnv) (reply : Reply) (m : Memory) (o : Option Element) (d : Device)
    → (handle_found env reply m (o, d)).2 ≡ m
unfolding handle_found reply_exit
found-balanced env reply m none d = refl
found-balanced env reply m (some e) d =
    process-Gives env reply
      (record { status = NtStatus.success; element = e; mapping = unmapped; memory = m }) refl

-- Whatever the reply says, and wherever its handling stops, WnbdHandleResponse holds no MDL and no
-- page lock in the end that was not held when it was called.
pub handle_response-balanced :
    (env : ReplyEnv) (reply : Reply) (d : Device) (m : Memory)
    → (handle_response env reply d m).2 ≡ m
unfolding handle_response
handle_response-balanced env reply d m = ground (
  arith,
  found-balanced env reply m (remove_by_tag d reply.request_handle).0
      (remove_by_tag d reply.request_handle).1,
)
