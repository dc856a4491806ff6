-- ===== src/Docs/Samples.antt =====
-- The code of `SDK_EXAMPLES` in web/src/app/docs/page.tsx for Python, JavaScript and Go, line by line.
use uni_llm.Prelude.{List, String, [], ◌∷◌}

abbrev pub python_code : List String
python_code =
    "from openai import OpenAI" ∷ "" ∷ "client = OpenAI(" ∷ "    api_key=\"sk-your-key\","
    ∷ "    base_url=\"https://your-domain/v1\"" ∷ ")" ∷ ""
    ∷ "response = client.chat.completions.create(" ∷ "    model=\"deepseek-v3\","
    ∷ "    messages=[{\"role\": \"user\", \"content\": \"Hello!\"}]" ∷ ")"
    ∷ "print(response.choices[0].message.content)" ∷ []

abbrev pub java_script_code : List String
java_script_code =
    "import OpenAI from \"openai\";" ∷ "" ∷ "const client = new OpenAI({"
    ∷ "  apiKey: \"sk-your-key\"," ∷ "  baseURL: \"https://your-domain/v1\"," ∷ "});" ∷ ""
    ∷ "const response = await client.chat.completions.create({" ∷ "  model: \"claude-haiku\","
    ∷ "  messages: [{ role: \"user\", content: \"Hello!\" }]," ∷ "});"
    ∷ "console.log(response.choices[0].message.content);" ∷ []

abbrev pub go_code : List String
go_code =
    "package main" ∷ "" ∷ "import (" ∷ "    \"bytes\"" ∷ "    \"encoding/json\"" ∷ "    \"fmt\""
    ∷ "    \"io\"" ∷ "    \"net/http\"" ∷ ")" ∷ "" ∷ "func main() {"
    ∷ "    body, _ := json.Marshal(map[string]interface{}{" ∷ "        \"model\": \"deepseek-v3\","
    ∷ "        \"messages\": []map[string]string{"
    ∷ "            {\"role\": \"user\", \"content\": \"Hello!\"}," ∷ "        }," ∷ "    })" ∷ ""
    ∷ "    req, _ := http.NewRequest(\"POST\","
    ∷ "        \"https://your-domain/v1/chat/completions\"," ∷ "        bytes.NewReader(body))"
    ∷ "    req.Header.Set(\"Authorization\", \"Bearer sk-your-key\")"
    ∷ "    req.Header.Set(\"Content-Type\", \"application/json\")" ∷ ""
    ∷ "    resp, err := http.DefaultClient.Do(req)" ∷ "    if err != nil {" ∷ "        panic(err)"
    ∷ "    }" ∷ "    defer resp.Body.Close()" ∷ "" ∷ "    data, _ := io.ReadAll(resp.Body)"
    ∷ "    fmt.Println(string(data))" ∷ "}" ∷ []
