-- ===== src/Ctrl.antt =====
-- The control layer, src/mm_halow_ctrl.c: what its parts share.
pub mod Channels
pub mod Access
pub mod Scan
pub mod Stations
pub mod Radio
pub mod Queries
pub mod Bringup
pub mod Poll
pub mod Join
pub mod Transmit
mod Checks
use mm_halow_driver.Base.{ℕ, Bool, true, false}

-- enum mmwlan_status, as far as the source names it; any other value is `other`.
pub data Status : Type 0 where
  success invalid_argument unavailable no_mem timed_out channel_list_not_set channel_invalid
        not_found not_supported vif_error command_error other :
      Status

-- What a call returns: 0, or the negative of an error number.
pub data Errno : Type 0 where
  ok einval eagain enomem etimedout enodev erange enoent eopnotsupp enxio eio eperm enotconn : Errno

-- mm_halow_status_to_errno
unfoldable pub status_to_errno : Status → Errno
status_to_errno success = ok
status_to_errno invalid_argument = einval
status_to_errno unavailable = eagain
status_to_errno no_mem = enomem
status_to_errno timed_out = etimedout
status_to_errno channel_list_not_set = enodev
status_to_errno channel_invalid = erange
status_to_errno not_found = enoent
status_to_errno not_supported = eopnotsupp
status_to_errno vif_error = enxio
status_to_errno command_error = eio
status_to_errno other = eio

abbrev pub is_ok : Errno → Bool
is_ok ok = true
is_ok e = false

-- MM_HALOW_LINK_DOWN, _JOIN, _NOIP, _UP and _FAIL
pub data Link : Type 0 where
  down join noip up fail : Link

-- MM_HALOW_ITF_STA and MM_HALOW_ITF_AP
pub data Itf : Type 0 where
  sta ap : Itf
