-- ===== src/Server/Replies.antt =====
-- Which requests are answered, with which ids and in which order, and which tools a client can call.
use kimi_ssh.Base.{
  Bool, true, false, not, ◌||◌, ◌≡◌, refl, sym, ap, inl, inr, Option, none, some, List, [], ◌∷◌,
  if◌then◌else◌, arith, Bool-cases, Option-cases, any,
}
use mathlib.Core.List.{map}
use kimi_ssh.Base.Text.{Text, codes, same_text, same_text_iff}
use kimi_ssh.Server.Dispatch.{
  ToolSpec, tool_of, tool_specs, content_of, call_tool, call_decoded, handle_call_tool,
  handle_initialize, handle_list_tools, Method, initialize, ignore, shutdown, list_tools, call,
  unknown, method_of, handle_method, handle_with, handle_request,
}
use kimi_ssh.Server.Loop.{Served, Streams, go_on, written, request_of, serve_lines}
use kimi_ssh.Server.State.{Request, Reply, result, error, Response, Tool, tool_list, Server, World}
use kimi_ssh.Server.Tools.{Answer, done, refused}

-- The two methods that are never answered.
abbrev pub is_ignored : Text → Bool
is_ignored method =
    same_text method (codes "initialized") || same_text method (codes "notifications/initialized")

-- The id of the reply to a request, if there is one.
abbrev pub reply_id : Request → Option Text
reply_id r = if is_ignored r.method then none else r.id

abbrev pub id_of : Option Response → Option Text
id_of none = none
id_of (some reply) = some reply.id

content_of-id : (id : Text) (a : Answer) → (content_of id a).id ≡ id
content_of-id id (done r) = refl
content_of-id id (refused e) = refl

call_tool-id :
    (w : World) (s : Server) (id name arguments : Text) (ts : List ToolSpec)
    → (call_tool w s id name arguments ts).1.id ≡ id
unfolding call_tool
call_tool-id w s id name arguments [] = refl
call_tool-id w s id name arguments (t ∷ ts) = elim (Bool-cases (same_text t.name name)) [
  | inl e ↦ rw (e, call_tool) (content_of-id id (t.run w s arguments).1)
  | inr e ↦ rw (e, call_tool) (call_tool-id w s id name arguments ts)
]

call_decoded-id :
    (w : World) (s : Server) (id : Text) (o : Option (Text × Text))
    → (call_decoded w s id o).1.id ≡ id
call_decoded-id w s id none = refl
call_decoded-id w s id (some (name, arguments)) = call_tool-id w s id name arguments tool_specs

is_ignore : Method → Bool
is_ignore ignore = true
is_ignore _ = false

handle_method-id :
    (w : World) (s : Server) (id params : Text) (m : Method)
    → id_of (handle_method w s id params m).1 ≡ (if is_ignore m then none else some id)
unfolding is_ignore handle_initialize handle_call_tool
handle_method-id w s id params initialize = refl
handle_method-id w s id params ignore = refl
handle_method-id w s id params shutdown = refl
handle_method-id w s id params list_tools = refl
handle_method-id w s id params call = ap some (call_decoded-id w s id (w.call params))
handle_method-id w s id params unknown = refl

-- The table of methods, as a chain of tests of which the first excludes the second.
chain-is_ignore :
    (a b c d e : Bool)
    → (a ≡ true → b ≡ false)
    → is_ignore (
        if a
        then initialize
        else if b
        then ignore
        else if c
        then shutdown
        else if d
        then list_tools
        else if e
        then call
        else unknown)
      ≡ b
unfolding is_ignore
chain-is_ignore true b c d e h = sym (h refl)
chain-is_ignore false true c d e h = refl
chain-is_ignore false false true d e h = refl
chain-is_ignore false false false true e h = refl
chain-is_ignore false false false false true h = refl
chain-is_ignore false false false false false h = refl

initialize-is_ignored :
    (method : Text) → same_text method (codes "initialize") ≡ true → is_ignored method ≡ false
unfolding same_text
initialize-is_ignored method e = ap is_ignored ((same_text_iff method (codes "initialize")).0 e)

is_ignore-method_of : (method : Text) → is_ignore (method_of method) ≡ is_ignored method
unfolding method_of
is_ignore-method_of method =
    chain-is_ignore (same_text method (codes "initialize")) (is_ignored method)
      (same_text method (codes "shutdown"))
      (same_text method (codes "tools/list") || same_text method (codes "list_tools"))
      (same_text method (codes "tools/call") || same_text method (codes "call_tool"))
      (initialize-is_ignored method)

handle_with-id :
    (w : World) (s : Server) (r : Request) (o : Option Text)
    → id_of (handle_with w s r o).1 ≡ (if is_ignored r.method then none else o)
handle_with-id w s r none = ground arith
handle_with-id w s r (some id) =
    rw (← is_ignore-method_of r.method) (handle_method-id w s id r.params (method_of r.method))

-- A request is answered exactly if it has an id and is not one of the two ignored methods, and the
-- reply has its id.
pub handle_request-reply_id :
    (w : World) (s : Server) (r : Request) → id_of (handle_request w s r).1 ≡ reply_id r
unfolding handle_request
handle_request-reply_id w s r = handle_with-id w s r r.id

-- The requests in the lines, the first `shutdown` the last of them.
abbrev pub up_to_shutdown : List Request → List Request
up_to_shutdown [] = []
up_to_shutdown (r ∷ rs) =
    r ∷ (if same_text r.method (codes "shutdown") then [] else up_to_shutdown rs)

-- What is there, in order.
abbrev pub present {ℓ} : {A : Type ℓ} → List (Option A) → List A
present [] = []
present (none ∷ os) = present os
present (some a ∷ os) = a ∷ present os

abbrev pub requests_in : Streams → List Text → List Request
requests_in io lines = present (map (request_of io) lines)

abbrev pub ids_of : List Response → List Text
ids_of replies = map (λ reply. reply.id) replies

module _ (w : World) (io : Streams) (writes : (reply : Response) → io.can_write reply ≡ true) where
  go_on-ids :
      (rest : Server → Served) (s : Server) (r : Request) (rs : List Request)
      → ((t : Server) → ids_of (rest t).replies ≡ present (map reply_id (up_to_shutdown rs)))
      → ids_of (go_on rest s r).replies
        ≡ present
            (map reply_id (if same_text r.method (codes "shutdown") then [] else up_to_shutdown rs))
  go_on-ids rest s r rs k = elim (Bool-cases (same_text r.method (codes "shutdown"))) [
    | inl e ↦ rw e refl
    | inr e ↦ rw e (k s)
  ]

  written-ids :
      (rest : Server → Served) (r : Request) (rs : List Request) (a : Server × Option Response)
      → id_of a.1 ≡ reply_id r
      → ((t : Server) → ids_of (rest t).replies ≡ present (map reply_id (up_to_shutdown rs)))
      → ids_of (written io rest r a).replies ≡ present (map reply_id (up_to_shutdown (r ∷ rs)))
  written-ids rest r rs (s, none) e k = rw (← e) (go_on-ids rest s r rs k)
  written-ids rest r rs (s, some reply) e k =
      rw (← e, writes reply) (ap (λ ids. reply.id ∷ ids) (go_on-ids rest s r rs k))

  -- The ids of the replies are, in order, those of the requests up to the first `shutdown` that
  -- have an id and are not one of the two ignored methods, if every reply can be written; blank
  -- lines and lines that do not decode count for nothing.
  pub serve_lines-ids :
      (lines : List Text) (s : Server)
      → ids_of (serve_lines w io lines s).replies
        ≡ present (map reply_id (up_to_shutdown (requests_in io lines)))
  unfolding serve_lines
  serve_lines-ids [] s = refl
  serve_lines-ids (line ∷ lines) s = elim (Option-cases (request_of io line)) [
    | inl e ↦ rw (e, serve_lines) (serve_lines-ids lines s)
    | inr (r, e) ↦
        rw (e, serve_lines)
          (written-ids (serve_lines w io lines) r (requests_in io lines) (handle_request w s r)
            (handle_request-reply_id w s r) (serve_lines-ids lines))
  ]

-- Whether a reply is an error of the protocol.
abbrev pub is_protocol_error : Reply → Bool
is_protocol_error (result r) = false
is_protocol_error (error code message_text) = true

-- What `tools/list` names.
abbrev pub listed : Reply → List Tool
listed (result (tool_list tools)) = tools
listed _ = []

content_of-is_protocol_error :
    (id : Text) (a : Answer) → is_protocol_error (content_of id a).reply ≡ false
content_of-is_protocol_error id (done r) = refl
content_of-is_protocol_error id (refused e) = refl

call_tool_lem :
    (w : World) (s : Server) (id name arguments : Text) (ts : List ToolSpec)
    → is_protocol_error (call_tool w s id name arguments ts).1.reply
      ≡ not (any (λ t. same_text t.name name) (map tool_of ts))
unfolding call_tool
call_tool_lem w s id name arguments [] = refl
call_tool_lem w s id name arguments (t ∷ ts) = elim (Bool-cases (same_text t.name name)) [
  | inl e ↦ rw (e, call_tool) (content_of-is_protocol_error id (t.run w s arguments).1)
  | inr e ↦ rw (e, call_tool) (call_tool_lem w s id name arguments ts)
]

-- A tool call that decodes is a protocol error exactly if `tools/list` does not name the tool: an
-- error of the tool itself is a result.
pub handle_call_tool-listed :
    (w : World) (s t : Server) (id other params name arguments : Text)
    → w.call params ≡ some (name, arguments)
    → is_protocol_error (handle_call_tool w s id params).1.reply
      ≡ not (any (λ tool. same_text tool.name name) (listed (handle_list_tools t other).1.reply))
unfolding handle_call_tool
handle_call_tool-listed w s t id other params name arguments e =
    rw (e, handle_call_tool) (call_tool_lem w s id name arguments tool_specs)
