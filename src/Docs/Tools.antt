-- ===== src/Docs/Tools.antt =====
-- The section on function calling of `SECTIONS` in web/src/app/docs/page.tsx, line by line.
use uni_llm.Prelude.{List, String, [], ◌∷◌}

abbrev pub functions_lines : List String
functions_lines =
    "## Function Calling" ∷ ""
    ∷ "Define tools that the model can invoke. The API follows the OpenAI function calling format."
    ∷ "" ∷ "### Request with Tools" ∷ "" ∷ "```json" ∷ "{" ∷ "  \"model\": \"deepseek-v3\","
    ∷ "  \"messages\": ["
    ∷ "    {\"role\": \"user\", \"content\": \"What is the weather in Tokyo?\"}" ∷ "  ],"
    ∷ "  \"tools\": [" ∷ "    {" ∷ "      \"type\": \"function\"," ∷ "      \"function\": {"
    ∷ "        \"name\": \"get_weather\","
    ∷ "        \"description\": \"Get current weather for a location\","
    ∷ "        \"parameters\": {" ∷ "          \"type\": \"object\","
    ∷ "          \"properties\": {"
    ∷ "            \"location\": {\"type\": \"string\", \"description\": \"City name\"},"
    ∷ "            \"unit\": {\"type\": \"string\", \"enum\": [\"celsius\", \"fahrenheit\"]}"
    ∷ "          }," ∷ "          \"required\": [\"location\"]" ∷ "        }" ∷ "      }" ∷ "    }"
    ∷ "  ]," ∷ "  \"tool_choice\": \"auto\"" ∷ "}" ∷ "```" ∷ "" ∷ "### Response (tool call)" ∷ ""
    ∷ "```json" ∷ "{" ∷ "  \"id\": \"chatcmpl-xxx\"," ∷ "  \"choices\": [{" ∷ "    \"index\": 0,"
    ∷ "    \"message\": {" ∷ "      \"role\": \"assistant\"," ∷ "      \"content\": null,"
    ∷ "      \"tool_calls\": [{" ∷ "        \"id\": \"call_abc123\","
    ∷ "        \"type\": \"function\"," ∷ "        \"function\": {"
    ∷ "          \"name\": \"get_weather\","
    ∷ "          \"arguments\": \"{\\\"location\\\":\\\"Tokyo\\\",\\\"unit\\\":\\\"celsius\\\"}\""
    ∷ "        }" ∷ "      }]" ∷ "    }," ∷ "    \"finish_reason\": \"tool_calls\"" ∷ "  }]" ∷ "}"
    ∷ "```" ∷ "" ∷ "### Sending Tool Results" ∷ ""
    ∷ "After receiving a tool call, execute the function and send the result back:" ∷ "" ∷ "```json"
    ∷ "{" ∷ "  \"model\": \"deepseek-v3\"," ∷ "  \"messages\": ["
    ∷ "    {\"role\": \"user\", \"content\": \"What is the weather in Tokyo?\"},"
    ∷ "    {\"role\": \"assistant\", \"content\": null, \"tool_calls\": [{\"id\": \"call_abc123\", \"type\": \"function\", \"function\": {\"name\": \"get_weather\", \"arguments\": \"{\\\"location\\\":\\\"Tokyo\\\"}\"}}]},"
    ∷ "    {\"role\": \"tool\", \"tool_call_id\": \"call_abc123\", \"content\": \"{\\\"temp\\\":22,\\\"condition\\\":\\\"sunny\\\"}\"}"
    ∷ "  ]" ∷ "}" ∷ "```" ∷ "" ∷ "### Python Example" ∷ "" ∷ "```python"
    ∷ "response = client.chat.completions.create(" ∷ "    model=\"deepseek-v3\","
    ∷ "    messages=[{\"role\": \"user\", \"content\": \"What is the weather in Tokyo?\"}],"
    ∷ "    tools=[{" ∷ "        \"type\": \"function\"," ∷ "        \"function\": {"
    ∷ "            \"name\": \"get_weather\","
    ∷ "            \"description\": \"Get current weather for a location\","
    ∷ "            \"parameters\": {" ∷ "                \"type\": \"object\","
    ∷ "                \"properties\": {"
    ∷ "                    \"location\": {\"type\": \"string\"}," ∷ "                },"
    ∷ "                \"required\": [\"location\"]," ∷ "            }," ∷ "        }," ∷ "    }],"
    ∷ ")" ∷ "" ∷ "if response.choices[0].message.tool_calls:"
    ∷ "    tool_call = response.choices[0].message.tool_calls[0]"
    ∷ "    print(f\"Call {tool_call.function.name}({tool_call.function.arguments})\")" ∷ "```" ∷ []
