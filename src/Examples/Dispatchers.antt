-- ===== src/Examples/Dispatchers.antt =====
-- The theorems on the dispatcher of libwnbd at concrete inputs: a disk that serves reads and writes.
use wnbd.Prelude.{refl, true, false, List, [], ◌∷◌}
use wnbd.Types
use wnbd.Types.{req_read, req_disconnect, IoRequest, WnbdStatus}
use wnbd.Dispatcher.{
  UserStats, Interface, Incoming, Response, UserDisk, error_success, fetched, Round, handle_request,
  send_response,
}
use wnbd.Dispatcher.Handled.{Handled}
use wnbd.Dispatcher.Counters.{IsBalanced, begin, handle, reply, reach-IsBalanced}
use wnbd.Nbd.Daemon.Replies.{no_status}

abbrev zero_stats : UserStats
zero_stats = record {
  total_received_requests = 0;
  total_submitted_requests = 0;
  total_received_replies = 0;
  unsubmitted_requests = 0;
  pending_submitted_requests = 0;
  pending_replies = 0;
  read_errors = 0;
  write_errors = 0;
  flush_errors = 0;
  unmap_errors = 0;
  persist_res_in_errors = 0;
  persist_res_out_errors = 0;
  invalid_requests = 0;
  total_rw_requests = 0;
  total_read_blocks = 0;
  total_written_blocks = 0;
}

abbrev interface : Interface
interface = record {
  read = true;
  write = true;
  flush = false;
  unmap = false;
  persist_res_in = false;
  persist_res_out = false;
}

abbrev served : UserDisk
served = record {
  flush_supported = false;
  unmap_supported = false;
  unmap_anchor_supported = false;
  persist_res_supported = false;
  max_unmap_desc_count = 0;
  interface = interface;
  stopping = false;
  stopped = false;
  started = true;
  stats = zero_stats;
  called = [];
  sent = [];
  removals = 0;
}

abbrev incoming : Incoming
incoming = record {
  request = record {
    request_handle = 1;
    request_type = req_read;
    cmd = wnbd.Types.transfer 3 8 false;
  };
  anchor = false;
}

abbrev leaving : Incoming
leaving = record {
  request = record {
    request_handle = 0;
    request_type = req_disconnect;
    cmd = wnbd.Types.no_command;
  };
  anchor = false;
}

abbrev read_response : Response
read_response = record { request_handle = 1; request_type = req_read; status = no_status }

-- A read, then the disconnect request.
abbrev rounds : List Round
rounds = fetched error_success incoming ∷ fetched error_success leaving ∷ []

abbrev replied_to : UserDisk
replied_to =
    (send_response error_success read_response (handle_request error_success incoming served)).1

zero_stats-IsBalanced : IsBalanced zero_stats
zero_stats-IsBalanced = record {
  received = refl;
  none_left = refl;
  pending = refl;
  none_sending = refl;
}

reach-IsBalanced_example : IsBalanced replied_to.stats
reach-IsBalanced_example =
    reach-IsBalanced served replied_to zero_stats-IsBalanced
      (reply error_success read_response (handle error_success incoming begin))
