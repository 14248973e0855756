-- ===== src/Server/Dispatch.antt =====
-- `HandleRequest` and the handlers of internal/mcp/server.go.
use kimi_ssh.Base.{true, false, ◌||◌, Option, none, some, List, [], ◌∷◌, ◌++◌, if◌then◌else◌}
use mathlib.Core.List.{map}
use kimi_ssh.Base.Text.{Text, codes, same_text}
use kimi_ssh.Config.Load.{LoadError, ConfigParser, all_configs, parse_config_files}
use kimi_ssh.Session.{set_session_configs}
use kimi_ssh.Server.State.{
  code_invalid_params, code_method_not_found, Request, message, Property, Schema, Tool,
  initialized_with, shut_down, tool_list, called, Response, success, failure, Server, World,
}
use kimi_ssh.Server.Tools.{
  Answer, done, refused, list_hosts, connect_host, exec_command, status, disconnect_host,
}

-- The `run` of a tool's specification.
abbrev pub Run : Type 0
Run = World → Server → Text → Server × Answer

pub record ToolSpec : Type 0 where
  pub name : Text
  pub description : Text
  pub properties : List Property
  pub required : List Text
  pub run : Run

-- `inputSchema`
abbrev pub input_schema : ToolSpec → Schema
input_schema t = record { properties = t.properties; required = t.required }

-- `tool`
abbrev pub tool_of : ToolSpec → Tool
tool_of t = record { name = t.name; description = t.description; input_schema = input_schema t }

-- `field`, under its name.
abbrev pub field : Text → Text → Text → Property
field name kind description = record { name = name; kind = kind; description = description }

-- `toolSpecs`
abbrev pub tool_specs : List ToolSpec
tool_specs =
    record {
      name = codes "ssh_list";
      description = codes "List available SSH hosts from config";
      properties = [];
      required = [];
      run = λ w s a. list_hosts s;
    }
    ∷ record {
      name = codes "ssh_connect";
      description = codes "Connect to a remote server via SSH";
      properties = field (codes "host") (codes "string") (codes "SSH config host alias or IP") ∷ [];
      required = codes "host" ∷ [];
      run = connect_host;
    }
    ∷ record {
      name = codes "ssh_exec";
      description = codes "Execute command on remote server";
      properties =
          field (codes "command") (codes "string") (codes "Command to execute")
          ∷ field (codes "host") (codes "string")
              (codes "Target host (optional, uses active session)")
          ∷ [];
      required = codes "command" ∷ [];
      run = exec_command;
    }
    ∷ record {
      name = codes "ssh_status";
      description = codes "Show current SSH connection status";
      properties = [];
      required = [];
      run = λ w s a. status s;
    }
    ∷ record {
      name = codes "ssh_disconnect";
      description = codes "Disconnect from a remote server";
      properties = field (codes "host") (codes "string") (codes "Host alias to disconnect") ∷ [];
      required = [];
      run = disconnect_host;
    }
    ∷ []

-- The configs reach the managers only if the parse succeeded.
abbrev pub take_configs : Server → ConfigParser × Option LoadError → Server
take_configs s (p, some e) = record s { config_parser = p }
take_configs s (p, none) = record {
  config_parser = p;
  session_manager = set_session_configs s.session_manager (all_configs p);
}

-- The version that a build without a tag reports.
abbrev pub version : Text
version = codes "1.3.0"

unfoldable pub handle_initialize : World → Server → Text → Server × Response
handle_initialize w s id = (
  take_configs s (parse_config_files w.file_system s.config_parser),
  success id (
      initialized_with (record {
        protocol_version = codes "2024-11-05";
        list_changed = false;
        server_name = codes "kimi-ssh";
        server_version = version;
      })),
)

abbrev pub handle_shutdown : Server → Text → Server × Response
handle_shutdown s id = (s, success id shut_down)

abbrev pub handle_list_tools : Server → Text → Server × Response
handle_list_tools s id = (s, success id (tool_list (map tool_of tool_specs)))

-- An error of a tool is a result whose one text is the message.
abbrev pub content_of : Text → Answer → Response
content_of id (done r) = success id (called r)
content_of id (refused e) = success id (called (record { texts = message e ∷ []; is_error = true }))

-- The loop of `handleCallTool` over the tools.
unfoldable pub call_tool : World → Server → Text → Text → Text → List ToolSpec → Server × Response
call_tool w s id name arguments [] =
    (s, failure id code_method_not_found (codes "Unknown tool: " ++ name))
call_tool w s id name arguments (t ∷ ts) = elim (same_text t.name name) [
  | true ↦ ((t.run w s arguments).0, content_of id (t.run w s arguments).1)
  | false ↦ call_tool w s id name arguments ts
]

abbrev pub call_decoded : World → Server → Text → Option (Text × Text) → Server × Response
call_decoded w s id none = (s, failure id code_invalid_params (codes "Invalid tool call format"))
call_decoded w s id (some (name, arguments)) = call_tool w s id name arguments tool_specs

unfoldable pub handle_call_tool : World → Server → Text → Text → Server × Response
handle_call_tool w s id params = call_decoded w s id (w.call params)

-- What the table of methods holds under a name.
pub data Method : Type 0 where
  initialize ignore shutdown list_tools call unknown : Method

unfoldable pub method_of : Text → Method
method_of name =
    if same_text name (codes "initialize")
    then initialize
    else if same_text name (codes "initialized")
        || same_text name (codes "notifications/initialized")
    then ignore
    else if same_text name (codes "shutdown")
    then shutdown
    else if same_text name (codes "tools/list") || same_text name (codes "list_tools")
    then list_tools
    else if same_text name (codes "tools/call") || same_text name (codes "call_tool")
    then call
    else unknown

abbrev pub answered : Server × Response → Server × Option Response
answered (s, r) = (s, some r)

abbrev pub handle_method : World → Server → Text → Text → Method → Server × Option Response
handle_method w s id params initialize = answered (handle_initialize w s id)
handle_method w s id params ignore = (s, none)
handle_method w s id params shutdown = answered (handle_shutdown s id)
handle_method w s id params list_tools = answered (handle_list_tools s id)
handle_method w s id params call = answered (handle_call_tool w s id params)
handle_method w s id params unknown =
    (s, some (failure id code_method_not_found (codes "Method not found")))

abbrev pub handle_with : World → Server → Request → Option Text → Server × Option Response
handle_with w s r none = (s, none)
handle_with w s r (some id) = handle_method w s id r.params (method_of r.method)

-- `HandleRequest`: a notification is neither run nor answered.
unfoldable pub handle_request : World → Server → Request → Server × Option Response
handle_request w s r = handle_with w s r r.id
