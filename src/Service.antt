-- ===== src/Service.antt =====
-- ag/ag_service/service_callinfo.go: what the framework knows about a call. The values of tags and
-- extras are of any type `V`; a map is a function, and what it does not hold is `none`, Go's nil.
pub mod Chain
pub mod Transaction
mod Tests
use ag_core.Prelude.{ℕ, Bool, true, false, Option, none, some, ◌==◌, if◌then◌else◌}

-- `CallInfo`; the service's information is a reference.
pub record CallInfo (V : Type 0) : Type 0 where
  pub service_info : ℕ
  pub call_name : ℕ
  pub client_streaming : Bool
  pub server_streaming : Bool
  pub extra : ℕ → Option V
  pub tag : ℕ → Option V
  pub locked : Bool

-- `ErrCallInfoLocked`, `ErrTagKeyExist` and `ErrExtraKeyExist`; the last is an error of the code
-- that uses a call's information.
pub data CallError : Type 0 where
  call_info_locked : CallError
  tag_key_exist : CallError
  extra_key_exist : CallError
  not_supported : CallError

module _ {V : Type 0} where
  abbrev pub is_some : Option V → Bool
  is_some none = false
  is_some (some v) = true

  abbrev pub store : (ℕ → Option V) → ℕ → V → ℕ → Option V
  store m key value k = if k == key then some value else m k

  pub new_call_info : ℕ → ℕ → Bool → Bool → CallInfo V
  new_call_info service_info call_name client_streaming server_streaming = record {
    service_info = service_info;
    call_name = call_name;
    client_streaming = client_streaming;
    server_streaming = server_streaming;
    extra = λ k. none;
    tag = λ k. none;
    locked = false;
  }

  abbrev pub has_tag : CallInfo V → ℕ → Bool
  has_tag ci key = is_some (ci.tag key)

  abbrev pub get_tag : CallInfo V → ℕ → Option V
  get_tag ci key = ci.tag key

  unfoldable pub add_tag : CallInfo V → ℕ → V → Option CallError × CallInfo V
  add_tag ci key value =
      if ci.locked
      then (some call_info_locked, ci)
      else if has_tag ci key
      then (some tag_key_exist, ci)
      else (none, record ci { tag = store ci.tag key value })

  unfoldable pub add_extra : CallInfo V → ℕ → V → Option CallError × CallInfo V
  add_extra ci key value =
      if is_some (ci.extra key)
      then (some extra_key_exist, ci)
      else (none, record ci { extra = store ci.extra key value })

  abbrev pub get_extra : CallInfo V → ℕ → Option V
  get_extra ci key = ci.extra key

  -- `lock`
  abbrev pub lock : CallInfo V → CallInfo V
  lock ci = record ci { locked = true }
