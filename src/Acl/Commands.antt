-- ===== src/Acl/Commands.antt =====
-- The permission matrix that the comment on `check_command` documents.
use cipher_mq.Common.{
  ◌≡◌, ◌↔◌, String, Bool, true, false, Option, none, some, [], ◌∷◌, Table, get, contains, arith,
}
use cipher_mq.Acl.{
  Role, sender, receiver, admin, unknown, allowed, AclManager, resolve_role, permits, check_command,
}

-- The rows: a command, and whether a sender and a receiver may give it.
abbrev pub matrix : Table (Bool × Bool)
matrix =
    ("declare_queue", (false, true))
    ∷ ("declare_exchange", (false, true))
    ∷ ("bind", (false, true))
    ∷ ("publish", (true, false))
    ∷ ("publish_batch", (true, false))
    ∷ ("consume", (false, true))
    ∷ ("ack", (true, true))
    ∷ ("register_public_key", (false, true))
    ∷ ("get_public_key", (true, false))
    ∷ ("resend", (true, true))
    ∷ ("heartbeat", (false, true))
    ∷ []

-- The cell of a role; no row means no permission.
abbrev pub cell : Role → Option (Bool × Bool) → Bool
cell admin row = true
cell unknown row = false
cell sender none = false
cell sender (some row) = row.0
cell receiver none = false
cell receiver (some row) = row.1

permits-sender : (command : String) → permits sender command ≡ cell sender (get command matrix)
unfolding permits get
permits-sender command = ground arith

permits-receiver :
    (command : String) → permits receiver command ≡ cell receiver (get command matrix)
unfolding permits get
permits-receiver command = ground arith

-- A command is allowed to a role exactly where the documented matrix has a check mark; an admin may
-- give any command, and a client without a role none.
pub check_command_iff :
    (role : Role) (command : String)
    → (check_command role command ≡ allowed) ↔ (cell role (get command matrix) ≡ true)
unfolding check_command
check_command_iff sender command = ground (arith, permits-sender command)
check_command_iff receiver command = ground (arith, permits-receiver command)
check_command_iff admin command = ground arith
check_command_iff unknown command = ground arith

-- A name that several lists hold has the strongest of their roles, admin before sender before
-- receiver, and a name that none holds is unknown.
pub resolve_role_iff :
    (acl : AclManager) (cn : String)
    → ((resolve_role acl cn ≡ admin) ↔ (contains cn acl.admin_cns ≡ true))
      × ((resolve_role acl cn ≡ sender)
          ↔ ((contains cn acl.admin_cns ≡ false) × (contains cn acl.sender_cns ≡ true)))
      × ((resolve_role acl cn ≡ receiver) ↔ (
          (contains cn acl.admin_cns ≡ false)
          × (contains cn acl.sender_cns ≡ false)
          × (contains cn acl.receiver_cns ≡ true)))
      × ((resolve_role acl cn ≡ unknown) ↔ (
          (contains cn acl.admin_cns ≡ false)
          × (contains cn acl.sender_cns ≡ false)
          × (contains cn acl.receiver_cns ≡ false)))
unfolding resolve_role
resolve_role_iff acl cn = ground arith
