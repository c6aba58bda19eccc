-- ===== src/Cli/Init/Templates.antt =====
-- The files that `stk init` writes, packages/cli/internal/commands/init.go.
use santokit.Base.{List, [], ◌∷◌, ◌++◌, Text, lit}

-- The lines, with a line end between them.
abbrev pub lines : List Text → Text
lines [] = []
lines (s ∷ []) = s
lines (s ∷ t ∷ rest) = s ++ b'\n' ∷ lines (t ∷ rest)

abbrev pub schema_content : Text
schema_content = lines (
    lit "table \"users\" {"
    ∷ lit "  schema = schema.public"
    ∷ lit "  column \"id\" {"
    ∷ lit "    null = false"
    ∷ lit "    type = uuid"
    ∷ lit "    default = sql(\"gen_random_uuid()\")"
    ∷ lit "  }"
    ∷ lit "  column \"email\" {"
    ∷ lit "    null = false"
    ∷ lit "    type = text"
    ∷ lit "  }"
    ∷ lit "  primary_key {"
    ∷ lit "    columns = [column.id]"
    ∷ lit "  }"
    ∷ lit "}"
    ∷ [])

abbrev pub auth_content : Text
auth_content = lines (
    lit "providers:"
    ∷ lit "  - type: email"
    ∷ lit "    enabled: true"
    ∷ lit "rules:"
    ∷ lit "  - role: \"*\""
    ∷ lit "    allow: true"
    ∷ lit ""
    ∷ [])

abbrev pub logic_content : Text
logic_content = lines (
    lit "---"
    ∷ lit "target: main"
    ∷ lit "access: public"
    ∷ lit "params:"
    ∷ lit "  name:"
    ∷ lit "    type: string"
    ∷ lit "    required: false"
    ∷ lit "    default: \"World\""
    ∷ lit "---"
    ∷ lit ""
    ∷ lit "export default async function(context) {"
    ∷ lit "  const { name } = context.params;"
    ∷ lit "  return {"
    ∷ lit "    message: \"Hello, \" + name + \"!\""
    ∷ lit "  };"
    ∷ lit "}"
    ∷ [])

abbrev pub config_content : Text
config_content = lines (
    lit "{"
    ∷ lit "  \"project_id\": \"\","
    ∷ lit "  \"codegen\": {"
    ∷ lit "    \"output\": \".stk/santokit-env.d.ts\""
    ∷ lit "  }"
    ∷ lit "}"
    ∷ [])

abbrev pub tsconfig_content : Text
tsconfig_content = lines (
    lit "{"
    ∷ lit "  \"compilerOptions\": {"
    ∷ lit "    \"target\": \"ES2020\","
    ∷ lit "    \"module\": \"ESNext\","
    ∷ lit "    \"moduleResolution\": \"Bundler\","
    ∷ lit "    \"strict\": true,"
    ∷ lit "    \"skipLibCheck\": true"
    ∷ lit "  },"
    ∷ lit "  \"include\": ["
    ∷ lit "    \"src\","
    ∷ lit "    \".stk/**/*.d.ts\""
    ∷ lit "  ]"
    ∷ lit "}"
    ∷ [])
