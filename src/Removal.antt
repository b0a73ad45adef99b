-- ===== src/Removal.antt =====
-- How user space removes a disk and waits for one: WnbdRemoveEx, WnbdRemove and WnbdPollDiskNumber of
-- libwnbd/libwnbd.cpp. The answers of the driver and of Windows are arguments; an error is its Win32
-- code, 0 for success.
use wnbd.Prelude.{
  ℕ, ◌<◌, ◌≤◌, ◌≡◌, ◌≢◌, ◌⊎◌, inl, inr, refl, Bool, true, false, not, ◌&&◌, ◌||◌, Option, none,
  some, List, [], ◌∷◌, ltb, ◌==◌, arith, split-if, if◌then◌else◌,
}

-- ERROR_FILE_NOT_FOUND, ERROR_NO_SUCH_DEVICE, ERROR_OPEN_FAILED, WAIT_TIMEOUT
abbrev pub error_file_not_found : ℕ
error_file_not_found = 2

abbrev pub error_no_such_device : ℕ
error_no_such_device = 433

abbrev pub error_open_failed : ℕ
error_open_failed = 110

abbrev pub wait_timeout : ℕ
wait_timeout = 258

-- WNBD_REMOVE_FLAGS, without options those of the default ones.
pub record RemoveFlags : Type 0 where
  pub hard_remove : Bool
  pub hard_remove_fallback : Bool

abbrev pub flags_of : Option RemoveFlags → RemoveFlags
flags_of none = record { hard_remove = false; hard_remove_fallback = true }
flags_of (some flags) = flags

-- The answers of WnbdOpenAdapter, WnbdShow, WnbdPnpRemoveDevice and WnbdIoctlRemove.
pub record RemoveEnv : Type 0 where
  pub opened : ℕ
  pub show : ℕ
  pub pnp : ℕ
  pub ioctl : ℕ

-- What a call leaves: its result, whether the adapter's handle is still open, and whether the driver was
-- asked to remove the disk.
pub record RemovalEnd : Type 0 where
  pub result : ℕ
  pub handle_open : Bool
  pub asked : Bool

-- WnbdIoctlRemove, and the error that is masked for a disk that was seen.
unfoldable pub ask_driver : RemoveEnv → Bool → RemovalEnd
ask_driver env found = record {
  result = if found && env.ioctl == error_file_not_found then 0 else env.ioctl;
  handle_open = false;
  asked = true;
}

-- The soft removal, through the PnP manager.
unfoldable pub soft_remove : RemoveEnv → RemoveFlags → RemovalEnd
unfolding ask_driver
soft_remove env flags =
    if not (env.show == 0)
    then record { result = env.show; handle_open = true; asked = false }
    else if not (env.pnp == 0)
        && not (env.pnp == error_file_not_found)
        && not flags.hard_remove_fallback
    then record { result = env.pnp; handle_open = true; asked = false }
    else ask_driver env true

-- WnbdRemoveEx
unfoldable pub remove_ex : RemoveEnv → Option RemoveFlags → RemovalEnd
unfolding soft_remove ask_driver
remove_ex env options =
    if not (env.opened == 0)
    then record { result = error_open_failed; handle_open = false; asked = false }
    else if (flags_of options).hard_remove
    then ask_driver env false
    else soft_remove env (flags_of options)

-- WnbdRemove, for a disk whose handle is set or not.
unfoldable pub remove : Bool → RemoveEnv → Option RemoveFlags → RemovalEnd
unfolding remove_ex
remove has_handle env options =
    if has_handle
    then remove_ex env options
    else record { result = 0; handle_open = false; asked = false }

-- WnbdRemoveEx succeeds only if the driver was asked to remove the disk, and removed it, or no longer
-- knew a disk that was there before the soft removal.
pub remove_ex-succeeds :
    (env : RemoveEnv) (options : Option RemoveFlags)
    → (remove_ex env options).result ≡ 0
    → ((remove_ex env options).asked ≡ true)
      × ((env.ioctl ≡ 0) ⊎ ((env.show ≡ 0) × (env.ioctl ≡ error_file_not_found)))
unfolding remove_ex soft_remove ask_driver
remove_ex-succeeds env options h = ground (arith, h)

-- A round of the loop of WnbdPollDiskNumber: the milliseconds that passed, what WnbdShow answers (0 and
-- the disk number, `none` for -1), and what opening the disk answers.
pub record PollRound : Type 0 where
  pub elapsed : ℕ
  pub show : ℕ
  pub disk_number : Option ℕ
  pub opened : ℕ

-- A round returns an error or a disk number, or is followed by the loop's test.
pub data PollEnd : Type 0 where
  found : ℕ → PollEnd
  failed : ℕ → PollEnd
  wait : PollEnd

-- An error by which a disk is not there yet.
abbrev pub is_absent : ℕ → Bool
is_absent status = status == error_no_such_device || status == error_file_not_found

unfoldable pub open_disk : PollRound → Option ℕ → PollEnd
open_disk r none = wait
open_disk r (some n) =
    if r.opened == 0 then found n else if is_absent r.opened then wait else failed r.opened

unfoldable pub poll_round : Bool → PollRound → PollEnd
unfolding open_disk
poll_round expect_mapped r =
    if not (r.show == 0)
    then (if expect_mapped || not (is_absent r.show) then failed r.show else wait)
    else open_disk r r.disk_number

-- WnbdPollDiskNumber; `none` is a caller that still polls after the rounds given.
unfoldable pub poll_disk_number : Bool → ℕ → List PollRound → Option PollEnd
unfolding poll_round
poll_disk_number expect_mapped timeout [] = none
poll_disk_number expect_mapped timeout (r ∷ rounds) =
    let rest = poll_disk_number expect_mapped timeout rounds in
    elim (poll_round expect_mapped r) [
      | found n ↦ some (found n)
      | failed e ↦ some (failed e)
      | wait ↦ if ltb r.elapsed timeout then rest else some (failed wait_timeout)
    ]

-- A round that starts when the timeout has passed.
abbrev pub HasLate : ℕ → List PollRound → Type 0
HasLate timeout [] = ⊥
HasLate timeout (r ∷ rounds) = (timeout ≤ r.elapsed) ⊎ HasLate timeout rounds

-- The answer of a poll is a disk number or an error.
abbrev pub IsFinal : Option PollEnd → Type 0
IsFinal none = ⊥
IsFinal (some wait) = ⊥
IsFinal (some (found n)) = Unit {0}
IsFinal (some (failed e)) = e ≢ 0

failed_round :
    (expect_mapped : Bool) (r : PollRound) (e : ℕ) → poll_round expect_mapped r ≡ failed e → e ≢ 0
unfolding poll_round open_disk
failed_round expect_mapped r e h = ground (arith, h)

round-IsFinal :
    (o : PollEnd) (timeout elapsed : ℕ) (rest : Option PollEnd)
    → ((e : ℕ) → o ≡ failed e → e ≢ 0)
    → (elapsed < timeout → IsFinal rest)
    → IsFinal (elim o [
      | found n ↦ some (found n)
      | failed e ↦ some (failed e)
      | wait ↦ if ltb elapsed timeout then rest else some (failed wait_timeout)
    ])
round-IsFinal (found n) timeout elapsed rest h k = tt
round-IsFinal (failed e) timeout elapsed rest h k = h e refl
round-IsFinal wait timeout elapsed rest h k =
    split-if IsFinal (ltb elapsed timeout) rest (some (failed wait_timeout))
      (λ t. k (ground (arith, t))) (λ f. ground arith)

not_early : (m n : ℕ) → m ≤ n → n < m → ⊥
not_early m n h k = ground (arith, h, k)

-- WnbdPollDiskNumber returns a disk number or an error once a round starts after the timeout.
pub poll_disk_number-IsFinal :
    (expect_mapped : Bool) (timeout : ℕ) (rounds : List PollRound)
    → HasLate timeout rounds
    → IsFinal (poll_disk_number expect_mapped timeout rounds)
unfolding poll_disk_number
poll_disk_number-IsFinal expect_mapped timeout [] h = h
poll_disk_number-IsFinal expect_mapped timeout (r ∷ rounds) (inl late) =
    round-IsFinal (poll_round expect_mapped r) timeout r.elapsed
      (poll_disk_number expect_mapped timeout rounds) (failed_round expect_mapped r)
      (λ early. elim (not_early timeout r.elapsed late early) [ ])
poll_disk_number-IsFinal expect_mapped timeout (r ∷ rounds) (inr later) =
    round-IsFinal (poll_round expect_mapped r) timeout r.elapsed
      (poll_disk_number expect_mapped timeout rounds) (failed_round expect_mapped r)
      (λ early. poll_disk_number-IsFinal expect_mapped timeout rounds later)
