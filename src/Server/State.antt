-- ===== src/Server/State.antt =====
-- The messages and the state of internal/mcp/server.go. JSON is decoded by functions that stand for
-- `json.Unmarshal` into the struct that the caller passes.
use kimi_ssh.Base.{Bool, ◌||◌, Option, some, List, [], if◌then◌else◌}
use kimi_ssh.Base.Int.{ℤ, negsuc}
use kimi_ssh.Base.Text.{Text, codes, same_text}
use kimi_ssh.Base.Text.Fields.{trim_space}
use kimi_ssh.Config.Load.{FileSystem, ConfigParser, new_config_parser}
use kimi_ssh.Session.{Session, SessionError, new_session, Dial}
use kimi_ssh.Exec.Run.{ExecEnv, ExecError, Remote}

-- -32602 and -32601.
abbrev pub code_invalid_params : ℤ
code_invalid_params = negsuc 32_601

abbrev pub code_method_not_found : ℤ
code_method_not_found = negsuc 32_600

-- A request; `none` is an id that is absent or null, and `params` is the raw message.
pub record Request : Type 0 where
  pub id : Option Text
  pub method : Text
  pub params : Text

-- The errors of the tools. Their texts are what `Error()` gives.
pub data ToolError : Type 0 where
  invalid_parameters host_required command_required nothing_to_disconnect : ToolError
  session_error : SessionError → ToolError
  exec_error : ExecError → ToolError

-- A text block of a result: written by a tool, or the message of an error.
pub data Block : Type 0 where
  text : Text → Block
  message : ToolError → Block

pub record ToolResult : Type 0 where
  pub texts : List Block
  pub is_error : Bool

-- One property of a tool's input schema.
pub record Property : Type 0 where
  pub name : Text
  pub kind : Text
  pub description : Text

-- The JSON Schema of an object; an empty `required` is left out of the message.
pub record Schema : Type 0 where
  pub properties : List Property
  pub required : List Text

pub record Tool : Type 0 where
  pub name : Text
  pub description : Text
  pub input_schema : Schema

-- What `initialize` answers: the protocol's version, whether the list of tools may change, and the
-- server's name and version.
pub record Handshake : Type 0 where
  pub protocol_version : Text
  pub list_changed : Bool
  pub server_name : Text
  pub server_version : Text

pub data Result : Type 0 where
  initialized_with : Handshake → Result
  shut_down : Result
  tool_list : List Tool → Result
  called : ToolResult → Result

pub data Reply : Type 0 where
  result : Result → Reply
  error : ℤ → Text → Reply

pub record Response : Type 0 where
  pub id : Text
  pub reply : Reply

abbrev pub success : Text → Result → Response
success id r = record { id = id; reply = result r }

abbrev pub failure : Text → ℤ → Text → Response
failure id code message_text = record { id = id; reply = error code message_text }

pub record Server : Type 0 where
  pub config_parser : ConfigParser
  pub session_manager : Session

abbrev pub new_server : Server
new_server = record { config_parser = new_config_parser; session_manager = new_session }

-- What is not in the program: JSON, the machine, the network, and how a duration is printed.
pub record World : Type 0 where
  -- The name and the raw arguments of a tool call.
  pub call : Text → Option (Text × Text)
  pub host_argument : Text → Option Text
  -- The command and the host of `ssh_exec`.
  pub exec_arguments : Text → Option (Text × Text)
  pub file_system : FileSystem
  pub dial : Dial
  pub exec_env : ExecEnv
  pub remote : Remote
  pub show_duration : ℤ → Text

-- `decode`: absent arguments leave the destination at its zero value.
unfoldable pub decode {ℓ} : {A : Type ℓ} → A → (Text → Option A) → Text → Option A
decode zero_value unmarshal arguments =
    let trimmed = trim_space arguments in
    if same_text trimmed [] || same_text trimmed (codes "null")
    then some zero_value
    else unmarshal trimmed
