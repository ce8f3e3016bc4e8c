-- ===== src/Token.antt =====
-- includes/lex/constants.h and includes/lex/token.h: keywords, operators and tokens.
--
-- A token holds the member of its union that its `token_type` selects.
use wxcc.Base.{ℕ, Bytes}
use wxcc.Input.{Position}

pub data Keyword : Type 0 where
  key_auto key_extern key_register key_static key_typedef : Keyword
  key_char key_float key_int key_long key_union key_enum key_signed key_short : Keyword
  key_unsigned key_struct key_double : Keyword
  key_volatile key_const : Keyword
  key_continue key_default key_do key_break key_case key_else key_for key_goto : Keyword
  key_if key_return key_sizeof key_switch key_kvoid key_while : Keyword

pub data Op : Type 0 where
  op_none op_lognot op_mod op_bitxor op_bitand op_mult op_plus op_minus op_bitnot : Op
  op_bitor op_div op_question : Op
  op_pointer op_inc op_dec op_leftshift op_rightshift op_lt op_gt op_le op_ge op_eq : Op
  op_ne op_logand op_logor op_leftbrack op_rightbrack op_leftsqbrac op_rightsqbrac : Op
  op_leftbrace op_rightbrace op_comma op_colon op_semicolon op_eppipsis op_period : Op
  op_assign op_alplus op_alminus op_almult op_aldiv op_almod op_alleftshift : Op
  op_alrightshift op_albitand op_albitxor op_albitor op_sizeof : Op

-- A `double`: what `strtod` makes of a text, or 1.0.
pub data Floating : Type 0 where
  strtod : Bytes → Floating
  one_point_zero : Floating

-- `Number`: the bits of `numberType`, and the member of `val` that its `type` selects.
pub data Number : Type 0 where
  int_con : ℕ → ℕ → Number
  float_con : ℕ → Floating → Number

pub data TokenValue : Type 0 where
  none_token : TokenValue
  key : Keyword → TokenValue
  op : Op → TokenValue
  ident : Bytes → TokenValue
  text : Bytes → TokenValue
  number : Number → TokenValue

pub record Token : Type 0 where
  pub token_value : TokenValue
  pub token_pos : Position
