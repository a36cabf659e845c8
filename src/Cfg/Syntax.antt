-- ===== src/Cfg/Syntax.antt =====
-- The nodes of a C syntax tree that the analyses of cgull/cfg read. The trees come from the
-- package pycparser; of each node only the fields that are read are kept.
use cgull.Prelude.{List, Option, Text}

pub data UnaryOperator : Type 0 where
  plus_sign minus_sign complement logical_not : UnaryOperator
  increment post_increment decrement post_decrement : UnaryOperator
  address_of other_unary : UnaryOperator

pub data BinaryOperator : Type 0 where
  plus minus times divide modulo shift_left shift_right : BinaryOperator
  bit_and bit_or bit_xor logical_and logical_or : BinaryOperator
  less less_equal greater greater_equal equal not_equal : BinaryOperator

pub data AssignOperator : Type 0 where
  assign add_assign subtract_assign other_assign : AssignOperator

-- A constant has its type and its text, a cast the text of its type; `other` stands for every
-- other expression.
pub data Node : Type 0 where
  id : Text → Node
  constant : Text → Text → Node
  unary_op : UnaryOperator → Node → Node
  binary_op : BinaryOperator → Node → Node → Node
  ternary_op : Node → Node → Node → Node
  cast : Text → Node → Node
  other : Node

pub record Declaration : Type 0 where
  pub name : Option Text
  pub init : Option Node

-- The node of a control-flow event; `no_statement` stands for a node of any other kind.
pub data Statement : Type 0 where
  decl_list : List Declaration → Statement
  decl : Declaration → Statement
  assignment : AssignOperator → Node → Node → Statement
  expression : Node → Statement
  no_statement : Statement
