-- ===== src/Builder/Detect.antt =====
-- internal/runtime/functions/builder/detect.go: which recipe builds a source. `exists` is
-- `fileExists` in the directory of the source.
use selfcloud.Base.{
  String, ◌<>◌, Bool, ◌||◌, List, [], ◌∷◌, str_eq, Error, message, Result, ok, err, if◌then◌else◌,
}
use selfcloud.Store.Types.{FunctionRuntime, wasm, firecracker, runtime_other, BuildSpec}

pub record Recipe : Type 0 where
  pub image : String
  pub commands : List String
  pub output : String
  pub language : String

-- `if v == "" { v = d }`
unfoldable pub or_text : String → String → String
or_text v fallback = if str_eq v "" then fallback else v

unfoldable pub shell : String → List String
shell script = "sh" ∷ "-lc" ∷ script ∷ []

-- the recipe of an ecosystem, with the overrides of the spec
unfoldable pub with_recipe : BuildSpec → String → String → String → String → Recipe
unfolding or_text shell
with_recipe spec language image script output = record {
  image = or_text spec.build_image image;
  commands = shell script;
  output = or_text spec.output output;
  language = language;
}

unfoldable pub node_output : FunctionRuntime → String
node_output firecracker = "/out/code.tar"
node_output wasm = "dist/handler.wasm"
node_output (runtime_other text) = "dist/handler.wasm"

abbrev pub rust_script : String
rust_script =
    "rustup target add wasm32-wasi >/dev/null 2>&1 || true; "
    <> "cd /src && cargo build --release --target wasm32-wasi && "
    <> "cp target/wasm32-wasi/release/*.wasm /out/handler.wasm"

abbrev pub tinygo_script : String
tinygo_script = "cd /src && tinygo build -o /out/handler.wasm -target wasi ."

abbrev pub node_script : String
node_script =
    "cd /src && (npm ci --no-audit --no-fund || npm install --no-audit --no-fund) && "
    <> "if npm run | grep -q '^  build'; then npm run build; fi && "
    <> "tar -cf /out/code.tar --exclude=node_modules/.cache ."

abbrev pub python_script : String
python_script =
    "cd /src && (test -f requirements.txt && pip install --no-cache-dir -r requirements.txt -t vendor || true) && "
    <> "tar -cf /out/code.tar ."

abbrev pub undetected : Error
undetected =
    message
      "could not detect build pipeline (no go.mod, Cargo.toml, package.json, requirements.txt or pyproject.toml found)"

-- the commands of the spec
unfoldable pub custom_recipe : BuildSpec → Recipe
unfolding or_text
custom_recipe spec = record {
  image = or_text spec.build_image "docker.io/library/debian:stable-slim";
  commands = spec.commands;
  output = or_text spec.output ".";
  language = spec.language;
}

-- the switch over the marker files
unfoldable pub autodetect : (String → Bool) → BuildSpec → FunctionRuntime → Result Recipe
unfolding with_recipe node_output
autodetect exists spec runtime =
    if exists "Cargo.toml"
    then ok (
        with_recipe spec "rust" "docker.io/library/rust:1-bookworm" rust_script "/out/handler.wasm")
    else if exists "go.mod"
    then ok (
        with_recipe spec "tinygo" "docker.io/tinygo/tinygo:latest" tinygo_script
          "/out/handler.wasm")
    else if exists "package.json"
    then ok (
        with_recipe spec "node" "docker.io/library/node:22-bookworm" node_script
          (node_output runtime))
    else if exists "requirements.txt" || exists "pyproject.toml"
    then ok (
        with_recipe spec "python" "docker.io/library/python:3.12-slim-bookworm" python_script
          "/out/code.tar")
    else err undetected

unfoldable pub detect_commands :
    (String → Bool) → BuildSpec → FunctionRuntime → List String → Result Recipe
unfolding autodetect custom_recipe
detect_commands exists spec runtime [] = autodetect exists spec runtime
detect_commands exists spec runtime (c ∷ cs) = ok (custom_recipe spec)

-- `detect`
unfoldable pub detect : (String → Bool) → BuildSpec → FunctionRuntime → Result Recipe
unfolding detect_commands
detect exists spec runtime = detect_commands exists spec runtime spec.commands
