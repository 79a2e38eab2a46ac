-- ===== src/Server/Filter/Ast.antt =====
-- FilterOp, FilterCondition and FilterNode of internal/core/domain/filter.go. A node has either
-- a condition or a logical operator, as the parser builds it; a nil node is `none` around it.
use super_duper_bassoon.Common.{String, if◌then◌else◌, str_eq, Option, none, some}
use super_duper_bassoon.Client.Value.{Value}

-- A FilterOp that the parser has checked by isKnownOp.
pub data FilterOp : Type 0 where
  eq neq lt gt lte gte in_list not_in contains not_contains : FilterOp

-- FilterOp(rawOp) and isKnownOp: `none` for an operator that is not known.
unfoldable pub known_op : String → Option FilterOp
known_op s =
    if str_eq s "=="
    then some eq
    else if str_eq s "!="
    then some neq
    else if str_eq s "<"
    then some lt
    else if str_eq s ">"
    then some gt
    else if str_eq s "<="
    then some lte
    else if str_eq s ">="
    then some gte
    else if str_eq s "IN"
    then some in_list
    else if str_eq s "NOT_IN"
    then some not_in
    else if str_eq s "CONTAINS"
    then some contains
    else if str_eq s "NOT_CONTAINS"
    then some not_contains
    else none

pub record FilterCondition (F : Type 0) : Type 0 where
  pub field : String
  pub op : FilterOp
  pub value : Value F

pub data FilterNode (F : Type 0) : Type 0 where
  condition : FilterCondition F → FilterNode F
  logic_not : FilterNode F → FilterNode F
  logic_and : FilterNode F → FilterNode F → FilterNode F
  logic_or : FilterNode F → FilterNode F → FilterNode F
