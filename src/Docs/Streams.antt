-- ===== src/Docs/Streams.antt =====
-- The section on streaming of `SECTIONS` in web/src/app/docs/page.tsx, line by line.
use uni_llm.Prelude.{List, String, [], ◌∷◌}

abbrev pub streaming_lines : List String
streaming_lines =
    "## Streaming" ∷ "" ∷ "Set `\"stream\": true` to receive Server-Sent Events (SSE)." ∷ "" ∷ "```"
    ∷ "data: {\"id\":\"xxx\",\"choices\":[{\"delta\":{\"content\":\"Hello\"},\"index\":0}]}" ∷ ""
    ∷ "data: {\"id\":\"xxx\",\"choices\":[{\"delta\":{\"content\":\" world\"},\"index\":0}]}" ∷ ""
    ∷ "data: [DONE]" ∷ "```" ∷ "" ∷ "### Example (curl)" ∷ "" ∷ "```bash"
    ∷ "curl -N https://your-domain/v1/chat/completions \\"
    ∷ "  -H \"Authorization: Bearer sk-xxx\" \\" ∷ "  -H \"Content-Type: application/json\" \\"
    ∷ "  -d '{\"model\":\"deepseek-v3\",\"messages\":[{\"role\":\"user\",\"content\":\"Hi\"}],\"stream\":true}'"
    ∷ "```" ∷ "" ∷ "### Parsing SSE in Python" ∷ "" ∷ "```python" ∷ "from openai import OpenAI" ∷ ""
    ∷ "client = OpenAI(api_key=\"sk-your-key\", base_url=\"https://your-domain/v1\")" ∷ ""
    ∷ "stream = client.chat.completions.create(" ∷ "    model=\"deepseek-v3\","
    ∷ "    messages=[{\"role\": \"user\", \"content\": \"Hello!\"}]," ∷ "    stream=True" ∷ ")" ∷ ""
    ∷ "for chunk in stream:" ∷ "    delta = chunk.choices[0].delta" ∷ "    if delta.content:"
    ∷ "        print(delta.content, end=\"\", flush=True)" ∷ "print()" ∷ "```" ∷ ""
    ∷ "### Parsing SSE in JavaScript" ∷ "" ∷ "```typescript" ∷ "import OpenAI from \"openai\";" ∷ ""
    ∷ "const client = new OpenAI({" ∷ "  apiKey: \"sk-your-key\","
    ∷ "  baseURL: \"https://your-domain/v1\"," ∷ "});" ∷ ""
    ∷ "const stream = await client.chat.completions.create({" ∷ "  model: \"deepseek-v3\","
    ∷ "  messages: [{ role: \"user\", content: \"Hello!\" }]," ∷ "  stream: true," ∷ "});" ∷ ""
    ∷ "for await (const chunk of stream) {" ∷ "  const content = chunk.choices[0]?.delta?.content;"
    ∷ "  if (content) process.stdout.write(content);" ∷ "}" ∷ "```" ∷ ""
    ∷ "### Raw SSE Parsing (fetch)" ∷ "" ∷ "```typescript"
    ∷ "const response = await fetch(\"https://your-domain/v1/chat/completions\", {"
    ∷ "  method: \"POST\"," ∷ "  headers: {" ∷ "    \"Authorization\": \"Bearer sk-your-key\","
    ∷ "    \"Content-Type\": \"application/json\"," ∷ "  }," ∷ "  body: JSON.stringify({"
    ∷ "    model: \"deepseek-v3\"," ∷ "    messages: [{ role: \"user\", content: \"Hello!\" }],"
    ∷ "    stream: true," ∷ "  })," ∷ "});" ∷ "" ∷ "const reader = response.body!.getReader();"
    ∷ "const decoder = new TextDecoder();" ∷ "" ∷ "while (true) {"
    ∷ "  const { done, value } = await reader.read();" ∷ "  if (done) break;"
    ∷ "  const text = decoder.decode(value);" ∷ "  for (const line of text.split(\"\\n\")) {"
    ∷ "    if (line.startsWith(\"data: \") && line !== \"data: [DONE]\") {"
    ∷ "      const json = JSON.parse(line.slice(6));"
    ∷ "      const content = json.choices[0]?.delta?.content;"
    ∷ "      if (content) process.stdout.write(content);" ∷ "    }" ∷ "  }" ∷ "}" ∷ "```" ∷ []
