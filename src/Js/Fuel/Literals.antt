-- ===== src/Js/Fuel/Literals.antt =====
-- Syntax trees whose string literals are short.
use pugtemplate.Common.{ℕ, ◌≤◌, length}
use pugtemplate.Js.Ast.{Expression, Expressions, Properties, Statement, Statements, end, property}

-- Every string literal has at most `n` bytes.
unfoldable mutual
  pub Below : ℕ → Expression → Type 0
  Below n Expression.missing = Unit
  Below n (Expression.identifier name) = Unit
  Below n (Expression.string_literal v) = length v ≤ n
  Below n (Expression.number_literal v) = Unit
  Below n (Expression.array_literal es) = AllBelow n es
  Below n (Expression.boolean_literal v) = Unit
  Below n (Expression.object_literal ps) = FieldsBelow n ps
  Below n Expression.null_literal = Unit
  Below n (Expression.dot_expression l name) = Below n l
  Below n (Expression.conditional_expression t c a) = Below n t × Below n c × Below n a
  Below n (Expression.binary_expression op l r) = Below n l × Below n r
  Below n (Expression.call_expression c as') = Below n c × AllBelow n as'
  Below n (Expression.assign_expression op l r) = Below n l × Below n r
  Below n (Expression.variable_expression name i) = Below n i
  Below n (Expression.sequence_expression es) = AllBelow n es
  Below n (Expression.bracket_expression l m) = Below n l × Below n m
  Below n (Expression.unary_expression op e) = Below n e
  Below n (Expression.new_expression c as') = AllBelow n as'
  Below n Expression.other = Unit

  pub AllBelow : ℕ → Expressions → Type 0
  AllBelow n Expressions.nil = Unit
  AllBelow n (Expressions.cons e es) = Below n e × AllBelow n es

  pub FieldsBelow : ℕ → Properties → Type 0
  FieldsBelow n end = Unit
  FieldsBelow n (property k e ps) = Below n e × FieldsBelow n ps

unfoldable mutual
  pub StatementBelow : ℕ → Statement → Type 0
  StatementBelow n Statement.missing = Unit
  StatementBelow n (Statement.expression_statement e) = Below n e
  StatementBelow n (Statement.variable_statement es) = AllBelow n es
  StatementBelow n (Statement.return_statement e) = Below n e
  StatementBelow n (Statement.if_statement t c a) =
      Below n t × StatementBelow n c × StatementBelow n a
  StatementBelow n (Statement.throw_statement e) = Below n e
  StatementBelow n (Statement.block_statement ss) = StatementsBelow n ss
  StatementBelow n (Statement.for_in_statement i s b) = Below n i × Below n s × StatementBelow n b
  StatementBelow n (Statement.try_statement b p c) = StatementBelow n b × StatementBelow n c
  StatementBelow n (Statement.try_finally b) = StatementBelow n b
  StatementBelow n Statement.other = Unit

  pub StatementsBelow : ℕ → Statements → Type 0
  StatementsBelow n Statements.nil = Unit
  StatementsBelow n (Statements.cons s ss) = StatementBelow n s × StatementsBelow n ss
