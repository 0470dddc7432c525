-- ===== src/Acl.antt =====
-- server/src/acl.rs: from the common name of a certificate to a role, and what a role may do.
pub mod Commands
pub mod Resources
use text.Mathlib.Text.{starts_with}
use cipher_mq.Common.{
  String, Bool, true, false, ◌||◌, List, [], ◌∷◌, ◌==◌, if◌then◌else◌, contains, set_insert, format,
  ◌≡◌, refl, ◌⊎◌, inl, inr,
}

pub data Role : Type 0 where
  sender receiver admin unknown : Role

abbrev pub as_str : Role → String
as_str sender = "sender"
as_str receiver = "receiver"
as_str admin = "admin"
as_str unknown = "unknown"

pub data AuthResult : Type 0 where
  allowed : AuthResult
  denied : String → AuthResult

pub AuthResult-cases : (r : AuthResult) → (r ≡ allowed) ⊎ ((reason : String) × (r ≡ denied reason))
AuthResult-cases allowed = inl refl
AuthResult-cases (denied reason) = inr (reason, refl)

pub record AclManager : Type 0 where
  pub sender_cns : List String
  pub receiver_cns : List String
  pub admin_cns : List String

-- `collect` into a set.
abbrev pub collect : List String → List String
collect [] = []
collect (cn ∷ cns) = set_insert cn (collect cns)

abbrev pub new : List String → List String → List String → AclManager
new sender_cns receiver_cns admin_cns = record {
  sender_cns = collect sender_cns;
  receiver_cns = collect receiver_cns;
  admin_cns = collect admin_cns;
}

unfoldable pub resolve_role : AclManager → String → Role
resolve_role acl cn =
    if contains cn acl.admin_cns
    then admin
    else if contains cn acl.sender_cns
    then sender
    else if contains cn acl.receiver_cns
    then receiver
    else unknown

-- `matches!` on the role.
abbrev is_receiver : Role → Bool
is_receiver receiver = true
is_receiver _ = false

abbrev is_sender : Role → Bool
is_sender sender = true
is_sender _ = false

-- The `match` on the command, for a role that is neither admin nor unknown.
unfoldable pub permits : Role → String → Bool
permits role command =
    if "declare_queue" == command
    then is_receiver role
    else if "declare_exchange" == command
    then is_receiver role
    else if "bind" == command
    then is_receiver role
    else if "publish" == command || "publish_batch" == command
    then is_sender role
    else if "consume" == command
    then is_receiver role
    else if "ack" == command
    then is_sender role || is_receiver role
    else if "register_public_key" == command
    then is_receiver role
    else if "get_public_key" == command
    then is_sender role
    else if "resend" == command
    then is_sender role || is_receiver role
    else if "heartbeat" == command
    then is_receiver role
    else false

unfoldable pub check_command : Role → String → AuthResult
unfolding permits
check_command admin command = allowed
check_command unknown command = denied "unknown role — access denied"
check_command sender command =
    if permits sender command then allowed else denied "command not permitted for this role"
check_command receiver command =
    if permits receiver command then allowed else denied "command not permitted for this role"

-- The `match` on the type of the resource, for a receiver.
unfoldable pub owns : String → String → String → Bool
owns cn resource_type name =
    if "queue" == resource_type
    then starts_with name (format (cn ∷ "_" ∷ [])) || name == format (cn ∷ "_queue" ∷ [])
    else if "exchange" == resource_type
    then true
    else if "routing_key" == resource_type
    then starts_with name cn
    else false

unfoldable pub check_resource : Role → String → String → String → AuthResult
unfolding owns
check_resource admin cn resource_type name = allowed
check_resource unknown cn resource_type name = denied "unknown role — access denied"
check_resource receiver cn resource_type name =
    if owns cn resource_type name then allowed else denied "resource access denied for this role"
check_resource sender cn resource_type name = denied "resource access denied for this role"
