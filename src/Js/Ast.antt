-- ===== src/Js/Ast.antt =====
-- The syntax trees that pugjs/transform_js_.go takes from the JavaScript parser (otto/ast/node.go).
-- Source positions are left out. `missing` is a nil interface value, `other` a class of node that
-- the translation refuses. A number literal carries what fmt's %v prints of its value.
use pugtemplate.Common.{Text}

-- The tokens of otto/token with an entry in `ops`, and one for all others.
pub data Operator : Type 0 where
  plus minus multiply slash remainder : Operator
  bit_and bit_or exclusive_or shift_left shift_right unsigned_shift_right and_not : Operator
  logical_and logical_or increment decrement : Operator
  equal strict_equal less greater assign not bitwise_not : Operator
  not_equal strict_not_equal less_or_equal greater_or_equal delete other_operator : Operator

mutual
  pub data Expression : Type 0 where
    missing : Expression
    identifier : Text → Expression
    string_literal : Text → Expression
    number_literal : Text → Expression
    array_literal : Expressions → Expression
    boolean_literal : Text → Expression
    object_literal : Properties → Expression
    null_literal : Expression
    dot_expression : Expression → Text → Expression
    conditional_expression : Expression → Expression → Expression → Expression
    binary_expression : Operator → Expression → Expression → Expression
    call_expression : Expression → Expressions → Expression
    assign_expression : Operator → Expression → Expression → Expression
    variable_expression : Text → Expression → Expression
    sequence_expression : Expressions → Expression
    bracket_expression : Expression → Expression → Expression
    unary_expression : Operator → Expression → Expression
    new_expression : Expression → Expressions → Expression
    other : Expression

  pub data Expressions : Type 0 where
    nil : Expressions
    cons : Expression → Expressions → Expressions

  pub data Properties : Type 0 where
    end : Properties
    property : Text → Expression → Properties → Properties

-- `try_statement` has a catch clause, `try_finally` has none.
mutual
  pub data Statement : Type 0 where
    missing : Statement
    expression_statement : Expression → Statement
    variable_statement : Expressions → Statement
    return_statement : Expression → Statement
    if_statement : Expression → Statement → Statement → Statement
    throw_statement : Expression → Statement
    block_statement : Statements → Statement
    for_in_statement : Expression → Expression → Statement → Statement
    try_statement : Statement → Text → Statement → Statement
    try_finally : Statement → Statement
    other : Statement

  pub data Statements : Type 0 where
    nil : Statements
    cons : Statement → Statements → Statements
