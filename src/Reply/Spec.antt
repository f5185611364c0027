-- ===== src/Reply/Spec.antt =====
-- The rules of internal/handler/api/reply.go as a map from ids, without deleted rows, times and order.
use weiyeston.Base.{Option, none, some, ℤ, int_eq, ◌==◌, find, if◌then◌else◌}
use weiyeston.Reply.{AutoReplyRule, ReplyTables, is_rule}
use weiyeston.Reply.Handlers.{ReplyVo, to_reply_vo}

abbrev pub RuleMap : Type 0
RuleMap = ℤ → Option ReplyVo

abbrev pub seen : Option AutoReplyRule → Option ReplyVo
seen none = none
seen (some r) = some (to_reply_vo r)

-- What a reader sees under an id.
abbrev pub view : ReplyTables → RuleMap
view t id = seen (find (is_rule id) t.rules)

abbrev pub put : ReplyVo → RuleMap → RuleMap
put v m id = if v.id == id then some v else m id

abbrev pub erase : ℤ → RuleMap → RuleMap
erase gone m id = if gone == id then none else m id
