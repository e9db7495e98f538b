-- ===== src/Core/Messages.antt =====
-- crates/localpilot-core/src/message.rs and tool.rs: the provider-neutral model of messages. A UUID
-- stands for its text, and a JSON value for the text that it prints as.
use unshackled.Prelude.{Bool, true, false, Option, none, List, [], ◌∷◌}
use unshackled.Text.{Text}

pub data Role : Type 0 where
  system user assistant tool user_shell : Role

pub record ToolCall : Type 0 where
  pub id : Text
  pub name : Text
  pub input : Text

pub record ToolResult : Type 0 where
  pub id : Text
  pub output : Text
  pub is_error : Bool

pub data ContentBlock : Type 0 where
  text : Text → ContentBlock
  reasoning : Text → Option Text → Option Text → ContentBlock
  tool_use : ToolCall → ContentBlock
  tool_result : ToolResult → ContentBlock

pub record MessageMetadata : Type 0 where
  pub id : Option Text
  pub provider : Option Text
  pub synthetic : Option Text

pub record Message : Type 0 where
  pub role : Role
  pub content : List ContentBlock
  pub metadata : MessageMetadata

abbrev pub no_metadata : MessageMetadata
no_metadata = record { id = none; provider = none; synthetic = none }

abbrev pub new : Role → List ContentBlock → Message
new role content = record { role = role; content = content; metadata = no_metadata }

-- `Message::text`.
abbrev pub text_message : Role → Text → Message
text_message role t = new role (text t ∷ [])

-- `role == Role::…`.
abbrev pub role_eq : Role → Role → Bool
role_eq system system = true
role_eq user user = true
role_eq assistant assistant = true
role_eq tool tool = true
role_eq user_shell user_shell = true
role_eq _ _ = false
